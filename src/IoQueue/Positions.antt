-- ===== src/IoQueue/Positions.antt =====
-- The two positions of the ring of device/ioqueue.c and how far apart they are.
use os_zhenxiang.Prelude.{ℕ, suc, ◌+◌, ◌-◌, ◌%◌, ◌<◌, ◌≡◌, ◌⊎◌, inl, inr, true, false, ◌==◌, arith}
use os_zhenxiang.IoQueue.{bufsize, next_pos}

module _ (h t : ℕ) (head_in : h < bufsize) (tail_in : t < bufsize) where
  pub count_put :
      (next_pos h == t) ≡ false
      → (next_pos h + bufsize - t) % bufsize ≡ suc ((h + bufsize - t) % bufsize)
  count_put room =
      let apart : next_pos h < t ⊎ t < next_pos h = ground arith in
      elim apart [ inl lt ↦ omega arith | inr gt ↦ omega arith ]

  pub count_get :
      (h == t) ≡ false → suc ((h + bufsize - next_pos t) % bufsize) ≡ (h + bufsize - t) % bufsize
  count_get some_in =
      let apart : h < t ⊎ t < h = ground arith in
      elim apart [ inl lt ↦ omega arith | inr gt ↦ omega arith ]

  pub count_full : (next_pos h == t) ≡ true → (h + bufsize - t) % bufsize ≡ 63
  count_full full = let e : next_pos h ≡ t = ground arith in omega arith

  pub count_empty : (h == t) ≡ true → (h + bufsize - t) % bufsize ≡ 0
  count_empty empty = let e : h ≡ t = ground arith in omega arith

  pub end_of : (t + (h + bufsize - t) % bufsize) % bufsize ≡ h
  end_of = omega arith
