-- ===== src/Tests/Handles.antt =====
-- A user that is copied, and handles that end.
use statsig_cpp_core.Prelude.{ℕ, ◌+◌, ◌≡◌, ◌≢◌, refl, false, ◌==◌, count, arith}
use statsig_cpp_core.Handles.{
  Handles, construct, destroy, release, copy_construct, copy_assign, Reach, here, next, constructs,
  destroys, copies, assigns, no_handles,
}
use statsig_cpp_core.Handles.Balance.{uncopied_released_once}

-- A second user, 4, is assigned the first, 5, and a third, 6, ends.
abbrev three : Handles
three = construct 6 (construct 5 (construct 4 no_handles))

abbrev assigned : Handles
assigned = destroy 1 6 (copy_assign 3 5 (copy_construct 5 three))

ne : (m n : ℕ) → (m == n) ≡ false → m ≢ n
ne m n h = ground arith

assigned_reached : Reach 6 no_handles assigned
unfolding construct copy_construct copy_assign destroy release
assigned_reached =
    next
      (next
        (next (next (next (next here (constructs 4) tt) (constructs 5) tt) (constructs 6) tt)
          (copies 1 5 refl) (ne 5 6 refl))
        (assigns 3 2 4 5 refl refl) (ne 4 6 refl, ne 5 6 refl))
      (destroys 1 6 refl) tt

uncopied_released_once_example :
    (count 0 assigned.released ≡ 0)
    × (count 6 assigned.live + count 6 assigned.released ≡ count 6 assigned.issued)
uncopied_released_once_example = uncopied_released_once assigned 6 assigned_reached (ne 6 0 refl)
