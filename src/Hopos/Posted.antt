-- ===== src/Hopos/Posted.antt =====
-- src/bin/hopdns-hopos.rs: `post` loses nothing, and puts the value in as soon as there is room.
use hopdns.Base.{
  List, [], ◌∷◌, ◌++◌, Option, none, some, ◌≡◌, refl, sym, ap, ◌∙◌, ◌⊎◌, inl, inr, subst, length,
}
use hopdns.Hopos.Mailbox.{Mailbox, post}

module _ {A : Type 0} (m : Mailbox A) where
  -- The mailbox at each try, as long as every try is refused.
  abbrev pub at_tries : List (m.Bus → m.Bus) → m.Bus → List m.Bus
  at_tries [] b = b ∷ []
  at_tries (wait ∷ waits) b = b ∷ at_tries waits (wait b)

  abbrev pub IsFull : m.Bus → Type 0
  IsFull b = length (m.contents b) ≡ m.capacity

  abbrev pub AllFull : List m.Bus → Type 0
  AllFull [] = Unit
  AllFull (b ∷ bs) = IsFull b × AllFull bs

  -- The value went in at the first try that found room; the others found none.
  pub record WentIn (v : A) (tries : List m.Bus) (b' : m.Bus) : Type 0 where
    pub before : List m.Bus
    pub bus : m.Bus
    pub after : List m.Bus
    pub tries_are : tries ≡ before ++ bus ∷ after
    pub before_full : AllFull before
    pub contents_are : m.contents b' ≡ m.contents bus ++ v ∷ []

  abbrev Posted : A → List (m.Bus → m.Bus) → m.Bus → m.Bus × Option A → Type 0
  Posted v waits b p =
      ((p.1 ≡ none) × WentIn v (at_tries waits b) (p.0))
      ⊎ ((p.1 ≡ some v) × AllFull (at_tries waits b))

  later-Posted :
      (v : A) (wait : m.Bus → m.Bus) (waits : List (m.Bus → m.Bus)) (b : m.Bus)
      (p : m.Bus × Option A)
      → IsFull b
      → Posted v waits (wait b) p
      → Posted v (wait ∷ waits) b p
  later-Posted v wait waits b p full (inl (done, w)) = inl (
    done,
    record {
      before = b ∷ w.before;
      bus = w.bus;
      after = w.after;
      tries_are = ap (◌∷◌ b) w.tries_are;
      before_full = (full, w.before_full);
      contents_are = w.contents_are;
    },
  )
  later-Posted v wait waits b p full (inr (held, fulls)) = inr (held, (full, fulls))

  -- What one try does.
  tried :
      (v : A) (b : m.Bus)
      → ((b' : m.Bus) × (m.try_send v b ≡ (b', none)) × (m.contents b' ≡ m.contents b ++ v ∷ []))
        ⊎ ((m.try_send v b ≡ (b, some v)) × IsFull b)
  tried v b = go (m.try_send v b) refl
    where
      go :
          (p : m.Bus × Option A)
          → m.try_send v b ≡ p
          → ((b' : m.Bus) × (m.try_send v b ≡ (b', none))
              × (m.contents b' ≡ m.contents b ++ v ∷ []))
            ⊎ ((m.try_send v b ≡ (b, some v)) × IsFull b)
      go (b', none) h = inl (b', h, m.sent v b b' h)
      go (b', some back) h =
          let (same, kept, full) = m.refused v back b b' h in
          inr (h ∙ ap (λ (x : A). (b', some x)) same ∙ ap (λ (x : m.Bus). (x, some v)) kept, full)

  -- For a mailbox that keeps the laws of `Mailbox`, `post` either put the value behind the
  -- contents at one of its tries, before which every try found the mailbox full, or every try did
  -- and the value is still in hand.
  pub post-Posted :
      (v : A) (waits : List (m.Bus → m.Bus)) (b : m.Bus)
      → (((post m v waits b).1 ≡ none) × WentIn v (at_tries waits b) ((post m v waits b).0))
        ⊎ (((post m v waits b).1 ≡ some v) × AllFull (at_tries waits b))
  unfolding post
  post-Posted v [] b = elim (tried v b) [
    | inl (b', h, c) ↦ rw h (
        inl (
          refl,
          record {
            before = [];
            bus = b;
            after = [];
            tries_are = refl;
            before_full = tt;
            contents_are = c;
          },
        ))
    | inr (h, full) ↦ rw h (inr (refl, (full, tt)))
  ]
  post-Posted v (wait ∷ waits) b = elim (tried v b) [
    | inl (b', h, c) ↦
        let done : post m v (wait ∷ waits) b ≡ (b', none) = ap (stepped b) h in
        subst (Posted v (wait ∷ waits) b) (sym done) (
          inl (
            refl,
            record {
              before = [];
              bus = b;
              after = at_tries waits (wait b);
              tries_are = refl;
              before_full = tt;
              contents_are = c;
            },
          ))
    | inr (h, full) ↦
        let again : post m v (wait ∷ waits) b ≡ post m v waits (wait b) = ap (stepped b) h in
        subst (Posted v (wait ∷ waits) b) (sym again) (
          later-Posted v wait waits b (post m v waits (wait b)) full (post-Posted v waits (wait b)))
  ]
    where
      stepped : m.Bus → m.Bus × Option A → m.Bus × Option A
      stepped b (b', none) = (b', none)
      stepped b (b', some back) = post m back waits (wait b')
