-- ===== src/Vmm/Text/Swap/Tests.antt =====
-- A run of the exchange.
use bztsrc_osz.Prelude.{ℕ, ◌+◌, ◌*◌, ◌≡◌, arith}
use bztsrc_osz.Vmm.Text.{swap_entries}
use bztsrc_osz.Vmm.Text.Swap.{Swapped, swap_entries-Swapped}

abbrev entries : ℕ → ℕ → ℕ
entries p k = p + 8 * k

swap_entries-Swapped_example :
    Swapped 4 4096 508 entries (swap_entries 4 4096 508 entries)
    × ((p k : ℕ) → swap_entries 4 4096 508 (swap_entries 4 4096 508 entries) p k ≡ entries p k)
swap_entries-Swapped_example = swap_entries-Swapped 4 4096 508 entries (omega arith)
