-- ===== src/Boot/Returns.antt =====
-- `entry` comes to the start of the shell, and back.
