-- ===== src/Text/Order.antt =====
-- `==` and `cmp` of texts: equality, and a strict total order.
use Prim.Native.Nat.{Ordering}
use hopdns.Base.{◌≡◌, refl, ◌↔◌, true, [], ◌∷◌, arith}
use hopdns.Text.{Text, text_eq, compare_text}

pub text_eq_iff : (a b : Text) → (text_eq a b ≡ true) ↔ (a ≡ b)
unfolding text_eq
text_eq_iff (x ∷ xs) (y ∷ ys) = ground (arith, text_eq_iff xs ys)
text_eq_iff _ _ = ground arith

pub text_eq_refl : (a : Text) → text_eq a a ≡ true
text_eq_refl a = (text_eq_iff a a).1 refl

pub compare_text_refl : (a : Text) → compare_text a a ≡ Ordering.eq
unfolding compare_text
compare_text_refl [] = refl
compare_text_refl (x ∷ xs) = ground (arith, compare_text_refl xs)

pub eq_of_compare_text : (a b : Text) → compare_text a b ≡ Ordering.eq → a ≡ b
unfolding compare_text
eq_of_compare_text [] [] h = refl
eq_of_compare_text (x ∷ xs) (y ∷ ys) h = ground (arith, eq_of_compare_text xs ys)
eq_of_compare_text _ _ h = cc

pub compare_text_gt_lt :
    (a b : Text) → compare_text a b ≡ Ordering.gt → compare_text b a ≡ Ordering.lt
unfolding compare_text
compare_text_gt_lt (x ∷ xs) [] h = refl
compare_text_gt_lt (x ∷ xs) (y ∷ ys) h = ground (arith, compare_text_gt_lt xs ys)
compare_text_gt_lt [] [] h = cc
compare_text_gt_lt [] (y ∷ ys) h = cc

pub compare_text_trans :
    (a b c : Text)
    → compare_text a b ≡ Ordering.lt
    → compare_text b c ≡ Ordering.lt
    → compare_text a c ≡ Ordering.lt
unfolding compare_text
compare_text_trans [] (y ∷ ys) (z ∷ zs) h k = refl
compare_text_trans (x ∷ xs) (y ∷ ys) (z ∷ zs) h k = ground (arith, compare_text_trans xs ys zs)
compare_text_trans _ _ _ h k = cc

pub compare_text_lt_gt :
    (a b : Text) → compare_text a b ≡ Ordering.lt → compare_text b a ≡ Ordering.gt
unfolding compare_text
compare_text_lt_gt [] [] h = cc
compare_text_lt_gt [] (y ∷ ys) h = refl
compare_text_lt_gt (x ∷ xs) [] h = cc
compare_text_lt_gt (x ∷ xs) (y ∷ ys) h = ground (arith, compare_text_lt_gt xs ys)
