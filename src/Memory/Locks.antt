-- ===== src/Memory/Locks.antt =====
-- The locks of memory.rs: how its tasks take them.
--
-- A task is what is left of its locked sections, branch by branch of the source, with the guards
-- that it has. Guards are given back together: at the end of an operation, of a round of
-- `polling_get`, which holds its guard while it sleeps, and of a cleaner. That a writer who waits
-- goes before later readers, in tokio's `RwLock`, is left out: it only lets fewer tasks step.
use idempotent_proxy.Prelude.{
  ℕ, zero, suc, ◌≡◌, refl, Bool, true, false, Option, none, some, List, [], ◌∷◌, ◌++◌, any, All,
  if◌then◌else◌,
}
use mathlib.Core.Option

pub data Lock : Type 0 where
  map_lock : Lock
  queue_lock : Lock

pub data Access : Type 0 where
  reads : Access
  writes : Access

pub data Action : Type 0 where
  takes : Lock → Access → Action
  spawns : Action
  gives_back : Action

-- The operations by the branch that they take, and the spawned cleaner. A poll has a Boolean for
-- each round: whether the entry has expired.
pub data Routine : Type 0 where
  obtain_held : Routine
  obtain_free : Routine
  poll : List Bool → Routine
  set_live : Routine
  set_expired : Routine
  set_missing : Routine
  del_present : Routine
  del_missing : Routine
  cleaner : Routine

abbrev pub round : Bool → List Action → List Action
round true rest = takes map_lock reads ∷ spawns ∷ gives_back ∷ rest
round false rest = takes map_lock reads ∷ gives_back ∷ rest

abbrev pub rounds : List Bool → List Action
rounds [] = []
rounds (expired ∷ l) = round expired (rounds l)

unfoldable pub actions : Routine → List Action
actions obtain_held = takes map_lock writes ∷ gives_back ∷ []
actions obtain_free = takes map_lock writes ∷ takes queue_lock writes ∷ gives_back ∷ []
actions (poll l) = rounds l
actions set_live = takes map_lock writes ∷ takes queue_lock writes ∷ gives_back ∷ []
actions set_expired = takes map_lock writes ∷ spawns ∷ gives_back ∷ []
actions set_missing = takes map_lock writes ∷ gives_back ∷ []
actions del_present = takes map_lock writes ∷ takes queue_lock writes ∷ spawns ∷ gives_back ∷ []
actions del_missing = takes map_lock writes ∷ spawns ∷ gives_back ∷ []
actions cleaner = takes queue_lock writes ∷ takes map_lock writes ∷ gives_back ∷ []

pub record Task : Type 0 where
  pub guards : List (Lock × Access)
  pub left : List Action

abbrev pub fresh : Routine → Task
fresh r = record { guards = []; left = actions r }

abbrev pub same_lock : Lock → Lock → Bool
same_lock map_lock map_lock = true
same_lock queue_lock queue_lock = true
same_lock _ _ = false

-- Whether a guard keeps another one from being taken: two readers do not exclude each other.
abbrev pub excludes : Lock → Access → Lock × Access → Bool
excludes l reads (l', reads) = false
excludes l reads (l', writes) = same_lock l l'
excludes l writes (l', access) = same_lock l l'

abbrev pub is_taken : Lock → Access → List Task → Bool
is_taken l access tasks = any (λ (t : Task). any (excludes l access) t.guards) tasks

-- A step of a task, among all of them; with it come the tasks that it spawns.
unfoldable pub advance : List Task → Task → Option (Task × List Task)
unfolding actions
advance tasks t = elim t.left [
  | [] ↦ none
  | action ∷ rest ↦ elim action [
    | takes l access ↦
        if is_taken l access tasks
        then none
        else some (record { guards = (l, access) ∷ t.guards; left = rest }, [])
    | spawns ↦ some (record t { left = rest }, fresh cleaner ∷ [])
    | gives_back ↦ some (record { guards = []; left = rest }, [])
  ]
]

unfoldable pub update_at : ℕ → (Task → Option (Task × List Task)) → List Task → Option (List Task)
update_at n f [] = none
update_at zero f (t ∷ l) = Option.map (λ (r : Task × List Task). r.0 ∷ (r.1 ++ l)) (f t)
update_at (suc n) f (t ∷ l) = Option.map (◌∷◌ t) (update_at n f l)

-- The step of the task at a place.
unfoldable pub step : ℕ → List Task → Option (List Task)
unfolding advance update_at
step n tasks = update_at n (advance tasks) tasks

pub data Reaches : List Task → List Task → Type 0 where
  here : {s : List Task} → Reaches s s
  after : {s s' s'' : List Task} (n : ℕ) → step n s ≡ some s' → Reaches s' s'' → Reaches s s''

-- No task can take a step.
abbrev pub IsStuck : List Task → Type 0
IsStuck s = (n : ℕ) → step n s ≡ none

-- The operations that change the queue.
abbrev pub ChangesQueue : Routine → Type 0
ChangesQueue obtain_free = Unit
ChangesQueue set_live = Unit
ChangesQueue del_present = Unit
ChangesQueue _ = ⊥

update_at-none :
    (f : Task → Option (Task × List Task)) (l : List Task)
    → All (λ t. f t ≡ none) l
    → (n : ℕ) → update_at n f l ≡ none
unfolding update_at
update_at-none f [] a n = refl
update_at-none f (t ∷ l) a zero = rw a.0 refl
update_at-none f (t ∷ l) a (suc n) = rw (update_at-none f l a.1 n) refl

abbrev pub all_fresh : List Routine → List Task
all_fresh [] = []
all_fresh (r ∷ l) = fresh r ∷ all_fresh l

-- What an operation that changes the queue does with the two locks.
abbrev pub locked : Routine → List Action
locked del_present = spawns ∷ gives_back ∷ []
locked _ = gives_back ∷ []

abbrev half_way : Routine → Task
half_way r = record { guards = (map_lock, writes) ∷ []; left = takes queue_lock writes ∷ locked r }

abbrev pub crossed : Routine → List Routine → List Task
crossed r others =
    half_way r
    ∷ record { guards = (queue_lock, writes) ∷ []; left = takes map_lock writes ∷ gives_back ∷ [] }
    ∷ all_fresh others

fresh_blocked :
    (r r' : Routine) (others : List Routine) → advance (crossed r others) (fresh r') ≡ none
unfolding advance actions
fresh_blocked r obtain_held others = refl
fresh_blocked r obtain_free others = refl
fresh_blocked r (poll []) others = refl
fresh_blocked r (poll (true ∷ l)) others = refl
fresh_blocked r (poll (false ∷ l)) others = refl
fresh_blocked r set_live others = refl
fresh_blocked r set_expired others = refl
fresh_blocked r set_missing others = refl
fresh_blocked r del_present others = refl
fresh_blocked r del_missing others = refl
fresh_blocked r cleaner others = refl

blocked :
    (r : Routine) (others some_others : List Routine)
    → All (λ t. advance (crossed r others) t ≡ none) (all_fresh some_others)
blocked r others [] = tt
blocked r others (r' ∷ l) = (fresh_blocked r r' others, blocked r others l)

-- Nobody who is about to start has a guard.
no_guard :
    (l : Lock) (access : Access) (others : List Routine)
    → is_taken l access (all_fresh others) ≡ false
no_guard l access [] = refl
no_guard l access (r ∷ others) = no_guard l access others

-- The two steps.
crossing :
    (r : Routine) (others : List Routine)
    → ChangesQueue r
    → Reaches (fresh r ∷ fresh cleaner ∷ all_fresh others) (crossed r others)
unfolding step advance actions update_at
crossing obtain_free others changes =
    after {s' = half_way obtain_free ∷ fresh cleaner ∷ all_fresh others} 0
      (rw (no_guard map_lock writes others) refl)
      (after {s' = crossed obtain_free others} 1 (rw (no_guard queue_lock writes others) refl) here)
crossing set_live others changes =
    after {s' = half_way set_live ∷ fresh cleaner ∷ all_fresh others} 0
      (rw (no_guard map_lock writes others) refl)
      (after {s' = crossed set_live others} 1 (rw (no_guard queue_lock writes others) refl) here)
crossing del_present others changes =
    after {s' = half_way del_present ∷ fresh cleaner ∷ all_fresh others} 0
      (rw (no_guard map_lock writes others) refl)
      (after {s' = crossed del_present others} 1 (rw (no_guard queue_lock writes others) refl) here)
crossing obtain_held others changes = absurd changes
crossing (poll l) others changes = absurd changes
crossing set_expired others changes = absurd changes
crossing set_missing others changes = absurd changes
crossing del_missing others changes = absurd changes
crossing cleaner others changes = absurd changes

-- The lock order admits a deadlock. Let an operation that changes the queue (an `obtain` of a free
-- key, a `set` of a live one or a `del` of a present one) and a cleaner be about to start, besides
-- any number of operations of any kind and cleaners that are about to start too. Then two steps
-- lead to a state in which the operation has the map's lock and the cleaner the queue's, and from
-- which no task can take a step, ever.
pub crossed-IsStuck :
    (r : Routine) (others : List Routine)
    → ChangesQueue r
    → Reaches (fresh r ∷ fresh cleaner ∷ all_fresh others) (crossed r others)
      × IsStuck (crossed r others)
unfolding step advance
crossed-IsStuck r others changes = (
  crossing r others changes,
  λ n.
      update_at-none (advance (crossed r others)) (crossed r others)
        (refl, (refl, blocked r others others)) n,
)
