-- ===== src/JsonStore/Locking.antt =====
-- packages/common/src/json-file-store.ts: the lock file and the recovery sentinel, one file-system call
-- at a time. An acquisition is one call of `withJsonFileLock`; its number stands for the random token
-- it writes, and `pid` gives its process. All processes run on one host, no call of the file system
-- fails but for EEXIST and ENOENT, and a process identifier is not used again.
use listmonk_ops.Prelude.{
  ℕ, Option, none, some, Bool, true, false, if◌then◌else◌, List, [], ◌∷◌, ◌==◌,
}

-- Where an acquisition stands, named by the call that comes next.
pub data Phase : Type 0 where
  -- `link` of the lock file, and after it failed, of the sentinel.
  links_lock links_recovery : Phase
  -- `removeDeadOwnerFile` of the sentinel: the two reads, and `unlink`.
  reads_recovery : Phase
  rereads_recovery unlinks_recovery : ℕ → Phase
  -- `removeDeadOwnerFile` of the lock file, the sentinel held.
  reads_lock : Phase
  rereads_lock unlinks_lock : ℕ → Phase
  -- `releaseLock` of the sentinel: the read, and `unlink`.
  leaves_recovery releases_recovery : Phase
  -- The action under the lock, then `releaseLock` of the lock file.
  holds_lock releases_lock : Phase
  finished : Phase

pub record LockState : Type 0 where
  pub lock : Option ℕ
  pub recovery : Option ℕ
  pub alive : ℕ → Bool
  pub phase : ℕ → Phase

abbrev pub set_phase : ℕ → Phase → (ℕ → Phase) → ℕ → Phase
set_phase a p phases b = if a == b then p else phases b

-- The file has the token.
abbrev pub has_token : Option ℕ → ℕ → Bool
has_token none a = false
has_token (some b) a = b == a

-- An acquisition makes its next call, a process dies, or an acquisition that waits for the lock ends
-- with a timeout.
pub data Event : Type 0 where
  advance crash give_up : ℕ → Event

module _ (pid : ℕ → ℕ) where
  abbrev pub is_alive : LockState → ℕ → Bool
  is_alive s a = s.alive (pid a)

  abbrev pub goes_to : LockState → ℕ → Phase → LockState
  goes_to s a p = record s { phase = set_phase a p s.phase }

  -- The next call of an acquisition whose process is alive.
  unfoldable pub next_call : LockState → ℕ → Phase → LockState
  next_call s a links_lock = elim s.lock [
    | none ↦ record (goes_to s a holds_lock) { lock = some a }
    | some m ↦ goes_to s a links_recovery
  ]
  next_call s a links_recovery = elim s.recovery [
    | none ↦ record (goes_to s a reads_lock) { recovery = some a }
    | some r ↦ goes_to s a reads_recovery
  ]
  next_call s a reads_recovery = elim s.recovery [
    | none ↦ goes_to s a links_lock
    | some r ↦ if is_alive s r then goes_to s a links_lock else goes_to s a (rereads_recovery r)
  ]
  next_call s a (rereads_recovery r) =
      if has_token s.recovery r then goes_to s a (unlinks_recovery r) else goes_to s a links_lock
  next_call s a (unlinks_recovery r) = record (goes_to s a links_lock) { recovery = none }
  next_call s a reads_lock = elim s.lock [
    | none ↦ goes_to s a leaves_recovery
    | some m ↦ if is_alive s m then goes_to s a leaves_recovery else goes_to s a (rereads_lock m)
  ]
  next_call s a (rereads_lock m) =
      if has_token s.lock m then goes_to s a (unlinks_lock m) else goes_to s a leaves_recovery
  next_call s a (unlinks_lock m) = record (goes_to s a leaves_recovery) { lock = none }
  next_call s a leaves_recovery =
      if has_token s.recovery a then goes_to s a releases_recovery else goes_to s a links_lock
  next_call s a releases_recovery = record (goes_to s a links_lock) { recovery = none }
  next_call s a holds_lock =
      if has_token s.lock a then goes_to s a releases_lock else goes_to s a finished
  next_call s a releases_lock = record (goes_to s a finished) { lock = none }
  next_call s a finished = s

  unfoldable pub happen : LockState → Event → LockState
  unfolding next_call
  happen s (advance a) = if is_alive s a then next_call s a (s.phase a) else s
  happen s (crash p) = record s { alive = λ q. if p == q then false else s.alive q }
  happen s (give_up a) = elim (s.phase a) [ links_lock ↦ goes_to s a finished | _ ↦ s ]

  unfoldable pub happens : LockState → List Event → LockState
  unfolding happen
  happens s [] = s
  happens s (e ∷ rest) = happens (happen s e) rest

-- No file, and every acquisition about to begin.
abbrev pub unlocked : LockState
unlocked = record { lock = none; recovery = none; alive = λ p. true; phase = λ a. links_lock }
