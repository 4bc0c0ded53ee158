-- ===== src/Paging/Tests.antt =====
-- The tables of a directory whose page table lies at 0x3000.
use mp.Prelude.{◌≡◌, refl, arith, some}
use mp.Paging.{Tables, paging_init, map_user}
use mp.Paging.Access.{translate, paging_init-translate, map_user-translate}

abbrev tables : Tables
tables = record { dt = λ n. 0; pt = λ n. 0; pt_address = 0x3000 }

paging_init-translate_example : translate (paging_init tables) 0xB8123 ≡ some 0xB8123
paging_init-translate_example =
    paging_init-translate tables 0xB8123 refl (omega arith) (omega arith)

-- Process 1 sees its program in the frame that starts at 12 MB.
map_user-translate_example : translate (map_user 1 tables) 0x08048000 ≡ some 0xC48000
map_user-translate_example = map_user-translate tables 1 0x08048000 (omega arith)
