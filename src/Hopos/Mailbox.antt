-- ===== src/Hopos/Mailbox.antt =====
-- src/bin/hopdns-hopos.rs: `post`, on the mailboxes of the crate `sync`.
use hopdns.Base.{ℕ, List, [], ◌∷◌, ◌++◌, Option, none, some, ◌≡◌, length}

-- What `sync::mpsc::Mailbox` gives: a value is put behind the others, or comes back when the place is full.
pub record Mailbox (A : Type 0) : Type 1 where
  pub Bus : Type 0
  pub capacity : ℕ
  pub contents : Bus → List A
  pub try_send : A → Bus → Bus × Option A
  pub sent : (v : A) (b b' : Bus) → try_send v b ≡ (b', none) → contents b' ≡ contents b ++ v ∷ []
  pub refused :
      (v back : A) (b b' : Bus)
      → try_send v b ≡ (b', some back)
      → (back ≡ v) × (b' ≡ b) × (length (contents b) ≡ capacity)

module _ {A : Type 0} (m : Mailbox A) where
  -- `post`. A wait is what others do with the mailbox until the next try; over these waits the value is
  -- put in, or is still in hand.
  unfoldable pub post : A → List (m.Bus → m.Bus) → m.Bus → m.Bus × Option A
  post v [] b = m.try_send v b
  post v (wait ∷ waits) b =
      let (b', full) = m.try_send v b in
      elim full [ none ↦ (b', none) | some back ↦ post back waits (wait b') ]
