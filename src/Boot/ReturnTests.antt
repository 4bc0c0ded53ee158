-- ===== src/Boot/ReturnTests.antt =====
-- A boot with a command line, a module that is the image with the program "a", and a memory map of one
-- entry.
use mp.Prelude.{◌==◌, if◌then◌else◌, inl, inr, refl, arith, Memory}
use mp.Strings.Lengths.{IsText}
use mp.FileSystem.{FileSystem, filesystem_init}
use mp.FileSystem.Words.{load32}
use mp.FileSystem.Directory.{IsDirectory, IsDirectory-same}
use mp.Process.{Kernel, set_mem}
use mp.Process.CallTests.{program_disk, idle}
use mp.Process.ReturnTests.{files, files-IsDirectory}
use mp.Boot.{Machine, Setting}
use mp.Boot.Given.{IsShell, found}
use mp.Boot.Tests.{machine, setting}

-- The information at 1000 has bits 2, 3 and 6 in its flags; the command line is at 100, the module's
-- descriptor at 1200, and the map at 1300.
abbrev loaded : Memory
loaded a =
    if a == 1000
    then 0x4C
    else if a == 1016
    then 100
    else if a == 1020
    then 1
    else if a == 1024
    then 0xB0
    else if a == 1025
    then 0x04
    else if a == 1044
    then 24
    else if a == 1048
    then 0x14
    else if a == 1049
    then 0x05
    else if a == 1202
    then 0x50
    else if a == 1300
    then 20
    else program_disk a

abbrev booted : Kernel
booted = set_mem loaded idle

abbrev disked : Machine
disked = record machine { kernel = booted }

abbrev program : Setting
program = record setting { shell = 100 }

name : IsText loaded 100 1
name = record { ends = refl; inside = λ j h. ground arith }

abbrev image : FileSystem
image = found 1000 booted.devices.files

image-IsDirectory : IsDirectory 280 image
unfolding load32 filesystem_init
image-IsDirectory =
    IsDirectory-same 280 files image files-IsDirectory
      (record { bytes = λ a. ground arith; head = refl; inside = λ a lo hi. ground arith })

shell : IsShell 40 program image
unfolding load32 filesystem_init
shell = record {
  length = 1;
  first = 0;
  text = name;
  not_null = omega arith;
  fits = omega arith;
  inside = omega arith;
  short = omega arith;
  spaces = λ j h. elim h [ ];
  stop = omega arith;
  apart = inr (omega arith);
  directory = image-IsDirectory;
  far = inl (omega arith);
  files = λ inode h. ground arith;
}
