-- ===== src/Bytes/Prefix.antt =====
-- Prefixes: stripping one, and cancelling one.
use aux_ducklake.Base.{◌≡◌, refl, some, [], ◌∷◌, ◌++◌, length, arith}
use aux_ducklake.Bytes.{Bytes, strip_prefix}

pub strip_prefix-append : (p x : Bytes) → strip_prefix p (p ++ x) ≡ some x
unfolding strip_prefix
strip_prefix-append [] x = refl
strip_prefix-append (b ∷ p) x = ground (arith, strip_prefix-append p x)

pub strip_prefix→eq : (p k x : Bytes) → strip_prefix p k ≡ some x → k ≡ p ++ x
unfolding strip_prefix
strip_prefix→eq [] k x h = cc
strip_prefix→eq (b ∷ p) [] x h = cc
strip_prefix→eq (b ∷ p) (c ∷ k) x h = ground (arith, strip_prefix→eq p k x)

-- Equal byte strings with equally long heads have equal heads and equal tails.
pub append_cancel : (a b x y : Bytes) → length a ≡ length b → a ++ x ≡ b ++ y → (a ≡ b) × (x ≡ y)
append_cancel [] [] x y h e = (refl, e)
append_cancel [] (b ∷ bs) x y h e = absurd (omega arith)
append_cancel (a ∷ as') [] x y h e = absurd (omega arith)
append_cancel (a ∷ as') (b ∷ bs) x y h e =
    let (p, q) = append_cancel as' bs x y (omega arith) (cc) in (cc, q)
