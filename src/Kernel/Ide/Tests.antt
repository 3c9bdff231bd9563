-- ===== src/Kernel/Ide/Tests.antt =====
-- A drive whose word `i` of sector `n` is `n + i`, and a block of memory written to it.
use rathal_os.Prelude.{ℕ, ◌+◌, ◌≡◌, arith, List, [], ◌∷◌}
use rathal_os.Memory.{Memory, IsBytes, zeros, place, place-IsBytes}
use rathal_os.Kernel.Ide.{ide_read_sector, ide_write_sector}
use rathal_os.Kernel.Ide.Sectors.{lba, words_sent, write_read}

abbrev drive : List (ℕ × ℕ) → ℕ → ℕ
drive command i = lba command + i

abbrev ram : Memory
ram = place 300 (7 ∷ 200 ∷ []) zeros

ram-IsBytes : IsBytes ram
ram-IsBytes = place-IsBytes 300 (7 ∷ 200 ∷ []) zeros (omega arith) (λ a. omega arith)

write_read_example :
    ide_read_sector (λ command. words_sent (ide_write_sector 3 300 ram)) 3 1000 zeros (1000 + 1)
    ≡ ram (300 + 1)
write_read_example = write_read 3 300 1000 1 ram zeros ram-IsBytes (omega arith)
