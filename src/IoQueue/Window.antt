-- ===== src/IoQueue/Window.antt =====
-- The part of the ring of device/ioqueue.c that is in use, as a list.
use os_zhenxiang.Prelude.{
  ℕ, zero, suc, ◌+◌, ◌-◌, ◌%◌, ◌<◌, ◌≡◌, refl, sym, ap, ap₂, ◌∙◌, false, List, [], ◌∷◌, ◌++◌, arith,
  ◌==◌, if◌then◌else◌, update, length, ◌⊎◌,
}
use os_zhenxiang.IoQueue.{bufsize, Ioqueue, next_pos}

-- `n` characters from `pos` on, around the end of the ring
unfoldable pub window : (ℕ → ℕ) → (pos n : ℕ) → List ℕ
window buf pos zero = []
window buf pos (suc n) = buf pos ∷ window buf (next_pos pos) n

pub length-window : (buf : ℕ → ℕ) (pos n : ℕ) → length (window buf pos n) ≡ n
unfolding window
length-window buf pos zero = refl
length-window buf pos (suc n) = ground (arith, length-window buf (next_pos pos) n)

-- One more character comes at the end.
pub window-snoc :
    (buf : ℕ → ℕ) (pos n : ℕ)
    → pos < bufsize
    → window buf pos (suc n) ≡ window buf pos n ++ buf ((pos + n) % bufsize) ∷ []
unfolding window
window-snoc buf pos zero h =
    let e : (pos + 0) % bufsize ≡ pos = omega arith in ap (λ p. buf p ∷ []) (sym e)
window-snoc buf pos (suc n) h =
    let e : (next_pos pos + n) % bufsize ≡ (pos + suc n) % bufsize = omega arith in
    ap (λ cs. buf pos ∷ cs)
      (window-snoc buf (next_pos pos) n (omega arith)
        ∙ ap (λ p. window buf (next_pos pos) n ++ buf p ∷ []) e)

-- A write behind the window does not show in it.
pub window-update :
    (buf : ℕ → ℕ) (pos n d at byte : ℕ)
    → pos < bufsize
    → n + d < bufsize
    → at ≡ (pos + n + d) % bufsize
    → window (update buf at byte) pos n ≡ window buf pos n
unfolding window
window-update buf pos zero d at byte h small e = refl
window-update buf pos (suc n) d at byte h small e =
    let differ : pos < at ⊎ at < pos = omega arith in
    let ne : (pos == at) ≡ false = ground arith in
    let e' : at ≡ (next_pos pos + n + d) % bufsize = omega arith in
    ap₂ (λ c cs. c ∷ cs) (ap (λ b. if b then byte else buf pos) ne)
      (window-update buf (next_pos pos) n d at byte (omega arith) (omega arith) e')

abbrev pub count : Ioqueue → ℕ
count ioq = (ioq.head + bufsize - ioq.tail) % bufsize

-- The characters in the ring, oldest first
abbrev pub contents : Ioqueue → List ℕ
contents ioq = window ioq.buf ioq.tail (count ioq)

-- The two positions are in the ring.
pub record InRing (ioq : Ioqueue) : Type 0 where
  pub head_in : ioq.head < bufsize
  pub tail_in : ioq.tail < bufsize
