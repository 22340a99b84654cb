-- ===== src/Vision/Pool.antt =====
-- vision/pool.go: the pool of vision providers, tried in order of priority behind their circuit
-- breakers. The providers themselves are called through their interface (vision/provider.go), and
-- are functions of what they are given and of the time of the call. Only such a call takes time.
pub mod Order
pub mod Steps
pub mod Service
pub mod Effects
pub mod Failover
pub mod Budget
use blind_llm_eyes.Base.{
  ℕ, suc, ◌+◌, String, ℤ, pos, ltb_ℤ, ltb, leb, str_eq, if◌then◌else◌, Bool, true, false, ◌&&◌,
  ◌||◌, Option, none, some, List, [], ◌∷◌, ◌++◌, length,
}
use blind_llm_eyes.Vision.Breaker.{
  CbState, cb_closed, cb_open, cb_half_open, numeric_value, CircuitBreaker, new_circuit_breaker,
  allow, record_success, record_failure,
}

-- The arguments of a call; a timeout of 0 means that the caller's context is passed on as it is.
pub record Image : Type 0 where
  pub base64_data : String
  pub media_type : String
  pub image_size : ℕ

-- (desc, nil) or (_, err)
pub data Described : Type 0 where
  described refused : String → Described

pub record Answer : Type 0 where
  pub outcome : Described
  pub elapsed : ℕ

-- VisionProvider, and whether it is a ContextualVisionProvider too. Both methods are given the
-- time of the call and the timeout of its context.
pub record VisionProvider : Type 0 where
  pub is_contextual : Bool
  pub describe_image : ℕ → ℕ → Image → Answer
  pub describe_image_with_context : ℕ → ℕ → Image → String → Answer

-- Times and sizes of 0 and below are alike to every test of the pool, so they are numbers here.
pub record PoolEntry : Type 0 where
  pub name : String
  pub provider : Option VisionProvider
  pub priority : ℤ
  pub cb : Option CircuitBreaker
  pub timeout : ℕ
  pub large_timeout : ℕ
  pub large_image_threshold : ℕ

-- An entry that NewPool has checked: its provider and its breaker are there.
pub record Member : Type 0 where
  pub name : String
  pub provider : VisionProvider
  pub priority : ℤ
  pub cb : CircuitBreaker
  pub timeout : ℕ
  pub large_timeout : ℕ
  pub large_image_threshold : ℕ

unfoldable pub select_timeout : Member → ℕ → ℕ
select_timeout m image_size =
    if ltb 0 m.large_image_threshold
      && (leb m.large_image_threshold image_size && ltb 0 m.large_timeout)
    then m.large_timeout
    else m.timeout

pub data PoolError : Type 0 where
  no_provider : PoolError
  name_required : ℕ → PoolError
  duplicate_name nil_provider : ℕ → String → PoolError

pub data NewPool : Type 0 where
  pool : List Member → NewPool
  invalid : PoolError → NewPool

unfoldable pub contains : String → List String → Bool
contains s [] = false
contains s (t ∷ ts) = str_eq t s || contains s ts

abbrev pub breaker_or_default : Option CircuitBreaker → CircuitBreaker
breaker_or_default none = new_circuit_breaker (pos 5) (pos 30000000000)
breaker_or_default (some cb) = cb

unfoldable pub member : PoolEntry → VisionProvider → Member
member e p = record {
  name = e.name;
  provider = p;
  priority = e.priority;
  cb = breaker_or_default e.cb;
  timeout = e.timeout;
  large_timeout = e.large_timeout;
  large_image_threshold = e.large_image_threshold;
}

cons_checked : Member → NewPool → NewPool
cons_checked m (pool ms) = pool (m ∷ ms)
cons_checked m (invalid e) = invalid e

-- The loop of NewPool over the entries: `i` is its index and `names` the names so far.
unfoldable pub check_entries : ℕ → List String → List PoolEntry → NewPool
unfolding cons_checked
check_entries i names [] = pool []
check_entries i names (e ∷ es) =
    let rest = check_entries (suc i) (e.name ∷ names) es in
    if str_eq e.name ""
    then invalid (name_required i)
    else if contains e.name names
    then invalid (duplicate_name i e.name)
    else elim e.provider [
      | none ↦ invalid (nil_provider i e.name)
      | some p ↦ cons_checked (member e p) rest
    ]

-- sort.SliceStable by priority
unfoldable pub insert_member : Member → List Member → List Member
insert_member m [] = m ∷ []
insert_member m (n ∷ ns) =
    if ltb_ℤ n.priority m.priority then n ∷ insert_member m ns else m ∷ n ∷ ns

unfoldable pub sort_members : List Member → List Member
sort_members [] = []
sort_members (m ∷ ms) = insert_member m (sort_members ms)

sorted_pool : NewPool → NewPool
sorted_pool (pool ms) = pool (sort_members ms)
sorted_pool (invalid e) = invalid e

unfoldable pub new_pool : List PoolEntry → NewPool
unfolding sorted_pool
new_pool [] = invalid no_provider
new_pool (e ∷ es) = sorted_pool (check_entries 0 [] (e ∷ es))

-- The outcome label of ProviderCallsTotal.
pub data CallResult : Type 0 where
  skipped success error : CallResult

-- What the pool reports to its metrics.
pub data Event : Type 0 where
  provider_call : String → CallResult → Event
  provider_duration : String → ℕ → Event
  breaker_state : String → ℕ → Event
  cb_transition : String → CbState → CbState → Event
  failover : Event

pub data LastErr : Type 0 where
  no_err : LastErr
  circuit_open : String → LastErr
  provider_err : String → String → LastErr

-- The variables of describeImageInternal, with the time and the metrics.
pub record Walk : Type 0 where
  pub now : ℕ
  pub last_err : LastErr
  pub failover_count : ℕ
  pub events : List Event

abbrev same_state : CbState → CbState → Bool
same_state cb_closed cb_closed = true
same_state cb_open cb_open = true
same_state cb_half_open cb_half_open = true
same_state _ _ = false

-- A change of state between two snapshots is reported.
abbrev transition : String → CbState → CbState → List Event
transition name before after =
    if same_state before after then [] else cb_transition name before after ∷ []

unfoldable pub call_provider : Member → ℕ → Image → String → Answer
call_provider m now image context_text =
    if m.provider.is_contextual
    then m.provider.describe_image_with_context now (select_timeout m image.image_size) image
        context_text
    else m.provider.describe_image now (select_timeout m image.image_size) image

-- the breaker refuses
abbrev pub skip : Member → CircuitBreaker → Walk → Walk
skip m cb w = record w {
  last_err = circuit_open m.name;
  events =
      w.events
      ++ (provider_call m.name skipped ∷ breaker_state m.name (numeric_value cb.state) ∷ []);
}

-- the provider answers with a description
abbrev pub succeed : Member → CircuitBreaker → ℕ → Walk → Walk
succeed m cb elapsed w =
    let after = record_success cb in
    record w {
      now = w.now + elapsed;
      events =
          w.events
          ++ (transition m.name m.cb.state cb.state
              ++ (transition m.name cb.state after.state
                  ++ (provider_call m.name success
                      ∷ provider_duration m.name elapsed
                      ∷ breaker_state m.name (numeric_value after.state)
                      ∷ [])));
    }

abbrev is_last : List Member → Bool
is_last [] = true
is_last (m ∷ ms) = false

-- the provider fails; `rest` are the providers after it
abbrev pub fail : Member → CircuitBreaker → ℕ → String → List Member → Walk → Walk
fail m cb elapsed reason rest w =
    let after = record_failure (w.now + elapsed) cb in
    record w {
      now = w.now + elapsed;
      last_err = provider_err m.name reason;
      failover_count = if is_last rest then w.failover_count else suc w.failover_count;
      events =
          w.events
          ++ (transition m.name m.cb.state cb.state
              ++ (transition m.name cb.state after.state
                  ++ (provider_call m.name error
                      ∷ provider_duration m.name elapsed
                      ∷ breaker_state m.name (numeric_value after.state)
                      ∷ (if is_last rest then [] else failover ∷ []))));
    }

pub record Visited : Type 0 where
  pub members : List Member
  pub walk : Walk
  pub description : Option String

abbrev cons_member : Member → Visited → Visited
cons_member m v = record v { members = m ∷ v.members }

-- The loop over the providers.
unfoldable pub visit : Image → String → List Member → Walk → Visited
visit image context_text [] w = record { members = []; walk = w; description = none }
visit image context_text (m ∷ ms) w =
    let cb = (allow w.now m.cb).0 in
    let answer = call_provider m w.now image context_text in
    let on_skip = cons_member (record m { cb = cb }) (visit image context_text ms (skip m cb w)) in
    let on_fail = λ (reason : String).
      cons_member (record m { cb = record_failure (w.now + answer.elapsed) cb })
        (visit image context_text ms (fail m cb answer.elapsed reason ms w)) in
    if (allow w.now m.cb).1
    then elim answer.outcome [
      | described desc ↦ record {
        members = record m { cb = record_success cb } ∷ ms;
        walk = succeed m cb answer.elapsed w;
        description = some desc;
      }
      | refused reason ↦ on_fail reason
    ]
    else on_skip

pub data PoolAnswer : Type 0 where
  pool_described : String → PoolAnswer
  all_failed : ℕ → LastErr → PoolAnswer

abbrev pub start : ℕ → Walk
start now = record { now = now; last_err = no_err; failover_count = 0; events = [] }

abbrev pub answer_of : ℕ → Visited → PoolAnswer
answer_of n v = elim v.description [
  | none ↦ all_failed n v.walk.last_err
  | some desc ↦ pool_described desc
]

-- DescribeImageWithContext of the pool; DescribeImage is the same with no context.
unfoldable pub describe_image_internal : ℕ → Image → String → List Member → Visited × PoolAnswer
describe_image_internal now image context_text ms =
    let v = visit image context_text ms (start now) in (v, answer_of (length ms) v)
