-- ===== src/Tests/Pool.antt =====
-- The pool at concrete inputs.
use blind_llm_eyes.Base.{
  inl, ◌+◌, ◌≤◌, ◌≡◌, ◌≢◌, ◌↔◌, refl, String, ℤ, pos, negsuc, true, false, some, none, List, [],
  ◌∷◌, arith,
}
use blind_llm_eyes.Vision.Breaker.{
  numeric_value, record_success, record_failure, CircuitBreaker, cb_closed, cb_open, allow,
}
use blind_llm_eyes.Vision.Pool.{
  Described, insert_member, sort_members, contains, check_entries, call_provider, Image, described,
  refused, VisionProvider, PoolEntry, Member, member, pool, invalid, duplicate_name, new_pool,
  visit, start, describe_image_internal, pool_described, select_timeout,
}
use blind_llm_eyes.Vision.Pool.Order.{IsProper, new_pool_iff}
use blind_llm_eyes.Vision.Pool.Service.{Serves, describe_iff_Serves}
use blind_llm_eyes.Vision.Pool.Effects.{Sound}
use blind_llm_eyes.Vision.Pool.Budget.{IsBudget, describe_time}

abbrev image : Image
image = record { base64_data = "AAAA"; media_type = "image/png"; image_size = 3 }

-- answers after 5 and fails after 7
abbrev seeing : VisionProvider
seeing = record {
  is_contextual = false;
  describe_image = λ now timeout i. record { outcome = described "a cat"; elapsed = 5 };
  describe_image_with_context =
      λ now timeout i c. record { outcome = refused "unused"; elapsed = 0 };
}

abbrev failing : VisionProvider
failing = record {
  is_contextual = true;
  describe_image = λ now timeout i. record { outcome = described "unused"; elapsed = 0 };
  describe_image_with_context = λ now timeout i c. record { outcome = refused "503"; elapsed = 7 };
}

abbrev fresh : CircuitBreaker
fresh = record {
  state = cb_closed;
  consecutive_fails = 0;
  failure_threshold = 1;
  reset_timeout = 100;
  opened_at = none;
  half_open_trial_in_flight = false;
}

abbrev opened : CircuitBreaker
opened = record fresh { state = cb_open; consecutive_fails = 1; opened_at = some 0 }

abbrev entry : String → VisionProvider → ℤ → PoolEntry
entry name provider priority = record {
  name = name;
  provider = some provider;
  priority = priority;
  cb = some fresh;
  timeout = 10;
  large_timeout = 20;
  large_image_threshold = 1000;
}

abbrev first : Member
first = record {
  name = "first";
  provider = failing;
  priority = pos 1;
  cb = fresh;
  timeout = 10;
  large_timeout = 20;
  large_image_threshold = 1000;
}

abbrev second : Member
second = record first { name = "second"; provider = seeing; priority = pos 2 }

abbrev both : List Member
both = first ∷ second ∷ []

abbrev closed_both : List Member
closed_both = record first { cb = opened } ∷ record second { cb = opened } ∷ []

abbrev entries : List PoolEntry
entries = entry "second" seeing (pos 2) ∷ entry "first" failing (negsuc 0) ∷ []

sorted : new_pool entries ≡ pool (record first { priority = negsuc 0 } ∷ second ∷ [])
unfolding new_pool check_entries contains sort_members insert_member member
sorted = refl

rejected :
    new_pool (entry "a" seeing (pos 1) ∷ entry "a" failing (pos 2) ∷ [])
    ≡ invalid (duplicate_name 1 "a")
unfolding new_pool check_entries contains
rejected = refl

fails_over : (describe_image_internal 0 image "" both).1 ≡ pool_described "a cat"
unfolding describe_image_internal visit call_provider select_timeout allow record_failure
    record_success numeric_value
fails_over = refl

new_pool_iff_example :
    ((ms : List Member) × (new_pool entries ≡ pool ms)) ↔ ((entries ≢ []) × IsProper entries)
new_pool_iff_example = new_pool_iff entries

describe_iff_Serves_example :
    ((describe_image_internal 0 image "" both).1 ≡ pool_described "a cat")
    ↔ ((name : String) × Serves image "" 0 both name "a cat")
describe_iff_Serves_example = describe_iff_Serves image "" 0 both "a cat"

both-Sound : Sound both
both-Sound = ground arith

served : (visit image "" both (start 0)).description ≡ some "a cat"
unfolding visit call_provider select_timeout allow record_failure record_success numeric_value
served = refl

-- Providers that use up their timeout, at a large image: one that fails, and one that answers.
abbrev exhausting : Described → VisionProvider
exhausting o = record {
  is_contextual = true;
  describe_image = λ now timeout i. record { outcome = o; elapsed = timeout };
  describe_image_with_context = λ now timeout i c. record { outcome = o; elapsed = timeout };
}

abbrev slow : List Member
slow =
    record first { provider = exhausting (refused "503") }
    ∷ record second { provider = exhausting (described "a cat") }
    ∷ []

abbrev large_image : Image
large_image = record image { image_size = 2000 }

slow-IsBudget : IsBudget 2000 slow 40
slow-IsBudget = (
  20,
  20,
  inl (omega arith, omega arith, omega arith, refl),
  (20, 0, inl (omega arith, omega arith, omega arith, refl), refl, refl),
  refl,
)

describe_time_example : (describe_image_internal 3 large_image "" slow).0.walk.now ≤ 3 + 40
describe_time_example =
    describe_time large_image "" 3 slow 40
      (
        (omega arith, (λ now d h. omega arith), (λ now d h. omega arith)),
        ((omega arith, (λ now d h. omega arith), (λ now d h. omega arith)), tt),
      )
      slow-IsBudget
