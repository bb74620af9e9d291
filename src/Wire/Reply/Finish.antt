-- ===== src/Wire/Reply/Finish.antt =====
-- The end of a reply: `finish`.
use hopdns.Base.{
  ℕ, ◌+◌, ◌≤◌, List, ◌++◌, Option, none, some, ◌≡◌, refl, ap, ◌∙◌, arith, subst, length, take, drop,
  overwrite, length-append, take-append,
}
use hopdns.Wire.{opt_len}
use hopdns.Wire.Reply.{Reply, reserve, finish, count_additional, opt_reply}
use hopdns.Wire.Reply.Shape.{
  Image, image_bytes, Shows, plus_one, with_additional, overwrite_ar, set_count-eq,
}
use hopdns.Wire.Reply.Records.{length-rest}
use hopdns.Wire.Words.{overwrite-append}

-- The message that is sent: with the OPT record, where the question spoke EDNS.
abbrev pub finished : Option ℕ → Image → Image
finished none m = m
finished (some _) m = with_additional opt_reply m

abbrev pub sent : List ℕ × ℕ → List ℕ
sent (buf, n) = take n buf

count_additional-eq :
    (r : Reply) (m : Image) (rec rest : List ℕ)
    → r.ar ≡ m.ar
    → count_additional (record r { buf = (image_bytes m ++ rec) ++ rest }) ≡ record r {
      buf = image_bytes (with_additional rec m) ++ rest;
      len = r.len + opt_len;
      ar = plus_one m.ar;
    }
unfolding count_additional
count_additional-eq r m rec rest e = rw e (
    set_count-eq
      (record r { buf = (image_bytes m ++ rec) ++ rest; len = r.len + opt_len; ar = plus_one m.ar })
      10 (plus_one m.ar) ((image_bytes m ++ rec) ++ rest)
      (image_bytes (with_additional rec m) ++ rest) refl
      (overwrite_ar m.id m.flags m.qd m.an m.ns m.ar (plus_one m.ar) ((m.body ++ rec) ++ rest)))

-- For a reply that shows the message `m`, the bytes that `finish` gives are those of `m`, with one
-- OPT record more if the query spoke EDNS, and they are within the reply's limit.
pub finish-Shows :
    (r : Reply) (m : Image)
    → Shows r m
    → sent (finish r) ≡ image_bytes (finished r.edns m) × (finish r).1 ≤ r.limit
unfolding finish
finish-Shows r m s = go r.edns refl
  where
    go :
        (e : Option ℕ)
        → r.edns ≡ e
        → sent (finish r) ≡ image_bytes (finished r.edns m) × (finish r).1 ≤ r.limit
    go none h =
        rw (h, finish) (rw s.layout (rw (s.len_is, take-append) refl), omega (arith, s.within))
    go (some n) h =
        let kept : r.len + 11 ≤ r.limit =
          subst (λ (e : Option ℕ). r.len + reserve e ≤ r.limit) h s.within in
        let long : length opt_reply ≤ length s.rest =
          omega (arith, length-rest s, s.limit_le, s.len_is) in
        let placed : overwrite r.buf r.len opt_reply
            ≡ some ((image_bytes m ++ opt_reply) ++ drop 11 s.rest) =
          ap (λ (b : List ℕ). overwrite b r.len opt_reply) s.layout
          ∙ overwrite-append (image_bytes m) s.rest opt_reply r.len s.len_is long in
        let counted = count_additional-eq r m opt_reply (drop 11 s.rest) s.ar_is in
        let long' : r.len + opt_len ≡ length (image_bytes (with_additional opt_reply m)) =
          omega (arith, s.len_is, length-append m.body opt_reply) in
        rw (h, finish) (rw placed (rw counted (rw (long', take-append) refl, kept)))
