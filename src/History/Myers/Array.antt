-- ===== src/History/Myers/Array.antt =====
-- The array `v`, read and written.
use vedox.Base.{ℕ, zero, suc, ◌<◌, ◌≡◌, ◌≢◌, refl, ap, List, [], ◌∷◌, length, arith}
use vedox.History.Myers.{read, write, zeros}

pub read-write_self : (v : List ℕ) (i x : ℕ) → i < length v → read (write v i x) i ≡ x
unfolding read write
read-write_self [] i x h = absurd (omega arith)
read-write_self (y ∷ v) zero x h = refl
read-write_self (y ∷ v) (suc i) x h = read-write_self v i x (omega arith)

pub read-write_ne : (v : List ℕ) (i j x : ℕ) → i ≢ j → read (write v i x) j ≡ read v j
unfolding read write
read-write_ne [] i j x h = refl
read-write_ne (y ∷ v) zero zero x h = absurd (h refl)
read-write_ne (y ∷ v) zero (suc j) x h = refl
read-write_ne (y ∷ v) (suc i) zero x h = refl
read-write_ne (y ∷ v) (suc i) (suc j) x h = read-write_ne v i j x (λ e. h (ap suc e))

pub length-write : (v : List ℕ) (i x : ℕ) → length (write v i x) ≡ length v
unfolding write
length-write [] i x = refl
length-write (y ∷ v) zero x = refl
length-write (y ∷ v) (suc i) x = ap suc (length-write v i x)

pub length-zeros : (n : ℕ) → length (zeros n) ≡ n
unfolding zeros
length-zeros zero = refl
length-zeros (suc n) = ap suc (length-zeros n)

pub read-zeros : (n i : ℕ) → read (zeros n) i ≡ 0
unfolding read zeros
read-zeros zero i = refl
read-zeros (suc n) zero = refl
read-zeros (suc n) (suc i) = read-zeros n i
