-- ===== src/Tools/Show/Tests.antt =====
-- A table of three inodes, of which the second is not in use.
use rathal_os.Prelude.{◌≡◌, refl, [], ◌∷◌}
use rathal_os.Memory.{Memory, place, zeros}
use rathal_os.Common.Inode.{InodeTable}
use rathal_os.Tools.Show.{list_from}

abbrev ram : Memory
ram = place 1000 (1 ∷ 0 ∷ b'a' ∷ []) (place 1034 (9 ∷ []) (place 1128 (2 ∷ 0 ∷ b'b' ∷ []) zeros))

abbrev table : InodeTable
table = record { inode_count = 3; size = 192; inodes = 1000 }

lists :
    list_from ram table 0 3
    ≡ record { name = 1002; number = 1; size = 9 }
      ∷ record { name = 1130; number = 2; size = 0 }
      ∷ []
unfolding list_from
lists = refl
