-- ===== src/Wasm/Pages.antt =====
-- The number of pages by which modules/wasm.rs grows a memory.
use wasm_operator.Base.{ℕ, ◌+◌, ◌-◌, ◌*◌, ◌%◌, ◌≤◌, ◌<◌, ◌≡◌, arith}
use wasm_operator.Wasm.{wasm_page_size, n_pages}

-- The pages are enough for the missing bytes, and one page less would not be.
pub n_pages_bounds :
    (memory_diff : ℕ)
    → (memory_diff ≤ n_pages memory_diff * wasm_page_size)
      × (n_pages memory_diff * wasm_page_size < memory_diff + wasm_page_size)
unfolding n_pages
n_pages_bounds memory_diff = ground arith

-- Two memories of whole pages: growing the smaller one makes them equally large.
pub n_pages-exact :
    (a b : ℕ)
    → a % wasm_page_size ≡ 0
    → b % wasm_page_size ≡ 0
    → a ≤ b
    → a + n_pages (b - a) * wasm_page_size ≡ b
unfolding n_pages
n_pages-exact a b p q h = ground arith
