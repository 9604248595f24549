-- ===== src/JsonStore/Exclusion.antt =====
-- The lock file excludes: as long as no process dies while its acquisition has the sentinel, two live
-- acquisitions never hold the lock at once.
use listmonk_ops.Prelude.{
  ℕ, Option, none, some, Bool, true, false, if◌then◌else◌, List, [], ◌∷◌, ◌==◌, ◌≡◌, ◌≢◌, refl, sym,
  ap, ◌∙◌, arith, Bool-cases, Option-cases, inl, inr, subst,
}
use listmonk_ops.JsonStore.Locking.{
  Phase, links_lock, links_recovery, reads_recovery, rereads_recovery, unlinks_recovery, reads_lock,
  rereads_lock, unlinks_lock, leaves_recovery, releases_recovery, holds_lock, releases_lock,
  finished, LockState, set_phase, has_token, is_alive, goes_to, next_call, Event, advance, crash,
  give_up, happen, happens, unlocked,
}

has_token-some : (file : Option ℕ) (a : ℕ) → has_token file a ≡ true → file ≡ some a
has_token-some none a h = absurd (ground arith)
has_token-some (some b) a h = let is_a : b ≡ a = ground arith in ap some is_a

module _ (pid : ℕ → ℕ) where
  -- What a phase says of the files.
  abbrev Fits : Option ℕ → Option ℕ → (ℕ → Bool) → ℕ → Phase → Type 0
  Fits lock recovery alive b (rereads_recovery r) = ⊥
  Fits lock recovery alive b (unlinks_recovery r) = ⊥
  Fits lock recovery alive b reads_lock = recovery ≡ some b
  Fits lock recovery alive b (rereads_lock m) = (recovery ≡ some b) × (alive (pid m) ≡ false)
  Fits lock recovery alive b (unlinks_lock m) =
      (recovery ≡ some b) × (alive (pid m) ≡ false) × (lock ≡ some m)
  Fits lock recovery alive b leaves_recovery = recovery ≡ some b
  Fits lock recovery alive b releases_recovery = recovery ≡ some b
  Fits lock recovery alive b holds_lock = alive (pid b) ≡ true → lock ≡ some b
  Fits lock recovery alive b releases_lock = alive (pid b) ≡ true → lock ≡ some b
  Fits lock recovery alive b _ = Unit

  -- Every acquisition fits, and the sentinel's process lives.
  abbrev IsConsistent : LockState → Type 0
  IsConsistent s =
      ((b : ℕ) → Fits s.lock s.recovery s.alive b (s.phase b))
      × ((r : ℕ) → s.recovery ≡ some r → s.alive (pid r) ≡ true)

  -- The crash of a process that has no sentinel.
  abbrev pub IsCareful : LockState → Event → Type 0
  IsCareful s (crash p) = (r : ℕ) → s.recovery ≡ some r → pid r ≢ p
  IsCareful s _ = Unit

  abbrev pub AreCareful : LockState → List Event → Type 0
  AreCareful s [] = Unit
  AreCareful s (e ∷ rest) = IsCareful s e × AreCareful (happen pid s e) rest

  -- A change of one acquisition's phase, and of the files as far as the others fit.
  moved :
      (s t : LockState) (a : ℕ) (p : Phase)
      → t.phase ≡ set_phase a p s.phase
      → Fits t.lock t.recovery t.alive a p
      → ((b : ℕ)
          → b ≢ a
          → Fits s.lock s.recovery s.alive b (s.phase b)
          → Fits t.lock t.recovery t.alive b (s.phase b))
      → ((b : ℕ) → Fits s.lock s.recovery s.alive b (s.phase b))
      → (b : ℕ) → Fits t.lock t.recovery t.alive b (t.phase b)
  moved s t a p e fits others h b =
      subst (λ f. Fits t.lock t.recovery t.alive b (f b)) (sym e)
        (elim (Bool-cases (a == b)) [
          | inl q ↦
              let same_one : a ≡ b = ground arith in
              rw q (subst (λ x. Fits t.lock t.recovery t.alive x p) same_one fits)
          | inr q ↦ rw q (others b (ground arith) (h b))
        ])

  -- How an acquisition that does nothing goes on fitting.
  transfer :
      (lock lock' recovery recovery' : Option ℕ) (alive alive' : ℕ → Bool) (b : ℕ) (p : Phase)
      → (recovery ≡ some b → recovery' ≡ some b)
      → ((m : ℕ) → alive (pid m) ≡ false → alive' (pid m) ≡ false)
      → ((m : ℕ) → recovery ≡ some b → alive (pid m) ≡ false → lock ≡ some m → lock' ≡ some m)
      → (alive' (pid b) ≡ true → (alive (pid b) ≡ true → lock ≡ some b) → lock' ≡ some b)
      → Fits lock recovery alive b p
      → Fits lock' recovery' alive' b p
  transfer lock lock' recovery recovery' alive alive' b links_lock f g k l h = tt
  transfer lock lock' recovery recovery' alive alive' b links_recovery f g k l h = tt
  transfer lock lock' recovery recovery' alive alive' b reads_recovery f g k l h = tt
  transfer lock lock' recovery recovery' alive alive' b (rereads_recovery r) f g k l h = h
  transfer lock lock' recovery recovery' alive alive' b (unlinks_recovery r) f g k l h = h
  transfer lock lock' recovery recovery' alive alive' b reads_lock f g k l h = f h
  transfer lock lock' recovery recovery' alive alive' b (rereads_lock m) f g k l (h, d) =
      (f h, g m d)
  transfer lock lock' recovery recovery' alive alive' b (unlinks_lock m) f g k l (h, d, e) =
      (f h, g m d, k m h d e)
  transfer lock lock' recovery recovery' alive alive' b leaves_recovery f g k l h = f h
  transfer lock lock' recovery recovery' alive alive' b releases_recovery f g k l h = f h
  transfer lock lock' recovery recovery' alive alive' b holds_lock f g k l h = λ t. l t h
  transfer lock lock' recovery recovery' alive alive' b releases_lock f g k l h = λ t. l t h
  transfer lock lock' recovery recovery' alive alive' b finished f g k l h = tt

  -- Only the phase of one acquisition changes.
  goes-Fits :
      (s : LockState) (a : ℕ) (p : Phase)
      → IsConsistent s
      → Fits s.lock s.recovery s.alive a p
      → IsConsistent (goes_to pid s a p)
  goes-Fits s a p (h, r) fits = (moved s (goes_to pid s a p) a p refl fits (λ b n k. k) h, r)

  module _ (s : LockState) (a : ℕ) (consistent : IsConsistent s)
      (lives : is_alive pid s a ≡ true) where
    links_lock-IsConsistent :
        s.lock ≡ none → IsConsistent (record (goes_to pid s a holds_lock) { lock = some a })
    links_lock-IsConsistent free = (
      moved s (record (goes_to pid s a holds_lock) { lock = some a }) a holds_lock refl (λ l. refl)
          (λ b n.
            transfer s.lock (some a) s.recovery s.recovery s.alive s.alive b (s.phase b) (λ e. e)
              (λ m d. d) (λ m e d k. absurd (ground arith)) (λ l k. absurd (ground (arith, k l))))
          consistent.0,
      consistent.1,
    )

    links_recovery-IsConsistent :
        s.recovery ≡ none → IsConsistent (record (goes_to pid s a reads_lock) { recovery = some a })
    links_recovery-IsConsistent free = (
      moved s (record (goes_to pid s a reads_lock) { recovery = some a }) a reads_lock refl refl
          (λ b n.
            transfer s.lock s.lock s.recovery (some a) s.alive s.alive b (s.phase b)
              (λ e. absurd (ground arith)) (λ m d. d) (λ m e d k. k) (λ l k. k l))
          consistent.0,
      (λ r e. subst (λ x. s.alive (pid x) ≡ true) (ground arith) lives),
    )

    unlinks_lock-IsConsistent :
        (m : ℕ)
        → s.recovery ≡ some a
        → s.alive (pid m) ≡ false
        → s.lock ≡ some m
        → IsConsistent (record (goes_to pid s a leaves_recovery) { lock = none })
    unlinks_lock-IsConsistent m mine dead held = (
      moved s (record (goes_to pid s a leaves_recovery) { lock = none }) a leaves_recovery refl mine
          (λ b n.
            transfer s.lock none s.recovery s.recovery s.alive s.alive b (s.phase b) (λ e. e)
              (λ x d. d) (λ x e d k. absurd (n (ground arith)))
              (λ l k.
                let is_b : m ≡ b = ground (arith, k l) in
                absurd (ground (arith, sym dead ∙ ap (λ x. s.alive (pid x)) is_b ∙ l))))
          consistent.0,
      consistent.1,
    )

    releases_recovery-IsConsistent :
        s.recovery ≡ some a → IsConsistent (record (goes_to pid s a links_lock) { recovery = none })
    releases_recovery-IsConsistent mine = (
      moved s (record (goes_to pid s a links_lock) { recovery = none }) a links_lock refl tt
          (λ b n.
            transfer s.lock s.lock s.recovery none s.alive s.alive b (s.phase b)
              (λ e. absurd (n (ground arith))) (λ m d. d) (λ m e d k. k) (λ l k. k l))
          consistent.0,
      (λ r e. absurd (ground arith)),
    )

    releases_lock-IsConsistent :
        s.lock ≡ some a → IsConsistent (record (goes_to pid s a finished) { lock = none })
    releases_lock-IsConsistent mine = (
      moved s (record (goes_to pid s a finished) { lock = none }) a finished refl tt
          (λ b n.
            transfer s.lock none s.recovery s.recovery s.alive s.alive b (s.phase b) (λ e. e)
              (λ m d. d)
              (λ m e d k.
                let is_a : a ≡ m = ground arith in
                absurd (ground (arith, sym lives ∙ ap (λ x. s.alive (pid x)) is_a ∙ d)))
              (λ l k. absurd (n (ground (arith, k l)))))
          consistent.0,
      consistent.1,
    )

    next_call-IsConsistent :
        (p : Phase) → Fits s.lock s.recovery s.alive a p → IsConsistent (next_call pid s a p)
    unfolding next_call
    next_call-IsConsistent links_lock h = elim (Option-cases s.lock) [
      | inl n ↦ rw (n, next_call) (links_lock-IsConsistent n)
      | inr (m, n) ↦ rw (n, next_call) (goes-Fits s a links_recovery consistent tt)
    ]
    next_call-IsConsistent links_recovery h = elim (Option-cases s.recovery) [
      | inl n ↦ rw (n, next_call) (links_recovery-IsConsistent n)
      | inr (r, n) ↦ rw (n, next_call) (goes-Fits s a reads_recovery consistent tt)
    ]
    next_call-IsConsistent reads_recovery h = elim (Option-cases s.recovery) [
      | inl n ↦ rw (n, next_call) (goes-Fits s a links_lock consistent tt)
      | inr (r, n) ↦ rw (n, consistent.1 r n, next_call) (goes-Fits s a links_lock consistent tt)
    ]
    next_call-IsConsistent (rereads_recovery r) h = absurd h
    next_call-IsConsistent (unlinks_recovery r) h = absurd h
    next_call-IsConsistent reads_lock h = elim (Option-cases s.lock) [
      | inl n ↦ rw (n, next_call) (goes-Fits s a leaves_recovery consistent h)
      | inr (m, n) ↦ elim (Bool-cases (is_alive pid s m)) [
        | inl l ↦ rw (n, l, next_call) (goes-Fits s a leaves_recovery consistent h)
        | inr l ↦ rw (n, l, next_call) (goes-Fits s a (rereads_lock m) consistent (h, l))
      ]
    ]
    next_call-IsConsistent (rereads_lock m) h = elim (Bool-cases (has_token s.lock m)) [
      | inl n ↦
          rw (n, next_call)
            (goes-Fits s a (unlinks_lock m) consistent (h.0, h.1, has_token-some s.lock m n))
      | inr n ↦ rw (n, next_call) (goes-Fits s a leaves_recovery consistent h.0)
    ]
    next_call-IsConsistent (unlinks_lock m) h = unlinks_lock-IsConsistent m h.0 h.1 h.2
    next_call-IsConsistent leaves_recovery h = elim (Bool-cases (has_token s.recovery a)) [
      | inl n ↦ rw (n, next_call) (goes-Fits s a releases_recovery consistent h)
      | inr n ↦ rw (n, next_call) (goes-Fits s a links_lock consistent tt)
    ]
    next_call-IsConsistent releases_recovery h = releases_recovery-IsConsistent h
    next_call-IsConsistent holds_lock h = elim (Bool-cases (has_token s.lock a)) [
      | inl n ↦ rw (n, next_call) (goes-Fits s a releases_lock consistent h)
      | inr n ↦ rw (n, next_call) (goes-Fits s a finished consistent tt)
    ]
    next_call-IsConsistent releases_lock h = releases_lock-IsConsistent (h lives)
    next_call-IsConsistent finished h = consistent

  give_up-IsConsistent :
      (s : LockState) (a : ℕ) (p : Phase)
      → IsConsistent s
      → IsConsistent (elim p [ links_lock ↦ goes_to pid s a finished | _ ↦ s ])
  give_up-IsConsistent s a links_lock h = goes-Fits s a finished h tt
  give_up-IsConsistent s a links_recovery h = h
  give_up-IsConsistent s a reads_recovery h = h
  give_up-IsConsistent s a (rereads_recovery r) h = h
  give_up-IsConsistent s a (unlinks_recovery r) h = h
  give_up-IsConsistent s a reads_lock h = h
  give_up-IsConsistent s a (rereads_lock m) h = h
  give_up-IsConsistent s a (unlinks_lock m) h = h
  give_up-IsConsistent s a leaves_recovery h = h
  give_up-IsConsistent s a releases_recovery h = h
  give_up-IsConsistent s a holds_lock h = h
  give_up-IsConsistent s a releases_lock h = h
  give_up-IsConsistent s a finished h = h

  -- A process dies that has no sentinel.
  crash-IsConsistent :
      (s : LockState) (p : ℕ)
      → IsConsistent s
      → ((r : ℕ) → s.recovery ≡ some r → pid r ≢ p)
      → IsConsistent (record s { alive = λ q. if p == q then false else s.alive q })
  crash-IsConsistent s p (h, r) careful = (
    (λ b.
        transfer s.lock s.lock s.recovery s.recovery s.alive
          (λ q. if p == q then false else s.alive q) b (s.phase b) (λ e. e)
          (λ m d. ground (arith, d)) (λ m e d k. k) (λ l k. k (ground (arith, l))) (h b)),
    (λ x e. ground (arith, careful x e, r x e)),
  )

  happen-IsConsistent :
      (s : LockState) (e : Event) → IsConsistent s → IsCareful s e → IsConsistent (happen pid s e)
  unfolding happen
  happen-IsConsistent s (advance a) h c = elim (Bool-cases (is_alive pid s a)) [
    | inl l ↦ rw (l, happen) (next_call-IsConsistent s a h l (s.phase a) (h.0 a))
    | inr l ↦ rw (l, happen) h
  ]
  happen-IsConsistent s (crash p) h c = crash-IsConsistent s p h c
  happen-IsConsistent s (give_up a) h c = give_up-IsConsistent s a (s.phase a) h

  happens-IsConsistent :
      (s : LockState) (es : List Event)
      → IsConsistent s
      → AreCareful s es
      → IsConsistent (happens pid s es)
  unfolding happens
  happens-IsConsistent s [] h c = h
  happens-IsConsistent s (e ∷ es) h c =
      happens-IsConsistent (happen pid s e) es (happen-IsConsistent s e h c.0) c.1

-- Whatever events happen to processes that begin with no file, as long as no process dies while an
-- acquisition of it has the sentinel: two acquisitions of live processes that are both in their
-- action are one.
pub lock_excludes :
    (pid : ℕ → ℕ) (es : List Event) (a b : ℕ)
    → AreCareful pid unlocked es
    → (happens pid unlocked es).phase a ≡ holds_lock
    → (happens pid unlocked es).phase b ≡ holds_lock
    → is_alive pid (happens pid unlocked es) a ≡ true
    → is_alive pid (happens pid unlocked es) b ≡ true
    → a ≡ b
lock_excludes pid es a b careful in_a in_b live_a live_b =
    let s = happens pid unlocked es in
    let fits =
      (happens-IsConsistent pid unlocked es ((λ x. tt), (λ r e. absurd (ground arith)))
        careful).0 in
    let mine = subst (Fits pid s.lock s.recovery s.alive a) in_a (fits a) live_a in
    let yours = subst (Fits pid s.lock s.recovery s.alive b) in_b (fits b) live_b in
    ground (arith, sym mine ∙ yours)
