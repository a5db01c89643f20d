-- ===== src/Vfs/Status/Ids.antt =====
-- lib/Basic/VirtualFileSystem.cpp, `getNextVirtualUniqueID`: the ids that are drawn one after the
-- other.
use u_lang.Prelude.{ℕ, zero, suc, ◌+◌, ◌%◌, ◌^◌, ◌<◌, ◌≡◌, ◌≢◌, ap, arith}
use u_lang.Basic.SourceLocation.{UniqueId}
use u_lang.Vfs.Status.{next_virtual_unique_id}

-- The counter after some draws, and the id of the draw behind them.
abbrev counter_after : ℕ → ℕ → ℕ
counter_after uid zero = uid
counter_after uid (suc n) = (next_virtual_unique_id (counter_after uid n)).1

unfoldable pub drawn_id : ℕ → ℕ → UniqueId
drawn_id uid n = (next_virtual_unique_id (counter_after uid n)).0

counter_after-mod : (uid n : ℕ) → uid < 2 ^ 32 → counter_after uid n ≡ (uid + n) % 2 ^ 32
counter_after-mod uid zero h = omega (arith, h)
counter_after-mod uid (suc n) h = omega (arith, counter_after-mod uid n h)

-- From any value of the 32-bit counter, two ids differ unless 2^32 or more draws lie between them.
pub drawn_id-ne :
    (uid i j : ℕ) → uid < 2 ^ 32 → i < j → j < i + 2 ^ 32 → drawn_id uid i ≢ drawn_id uid j
unfolding drawn_id
drawn_id-ne uid i j h later near same =
    let files : (drawn_id uid i).file ≡ (drawn_id uid j).file = ap (λ u. u.file) same in
    omega (arith, h, later, near, counter_after-mod uid i h, counter_after-mod uid j h, files)
