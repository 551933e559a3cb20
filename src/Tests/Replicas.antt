-- ===== src/Tests/Replicas.antt =====
-- Strategies, the replica count, and the collector's buffer.
use aom.Base.{
  ◌-◌, ◌/◌, ◌+◌, true, false, codes, List, [], ◌∷◌, ◌++◌, ◌≡◌, refl, sym, ap, ok, err, panic,
  external, arith, get_elem?, some, none, ℕ,
}
use aom.Base.Atoi.{atoi}
use aom.Base.Int.{ℤ, pos, ◌+ℤ◌, ◌*ℤ◌, ◌≤ℤ◌, ◌<ℤ◌, ltb_ℤ, sub_ℕ, pos_part, neg_part, wrap32}
use aom.Floats.{Floats}
use aom.K8s.{
  CrossVersionObjectReference, Scales, IsScales, Client, Connect, new_client, get_replica,
  set_replica,
}
use aom.K8s.Laws.{new_client_after_failure}
use aom.Scaler.{Scaler, up_to, down_to}
use aom.Scaler.Moves.{current, up_to_lem, up_to_bounds}
use aom.Scaler.Strategy.{max_strategy, min_strategy, mean_strategy}
use aom.Scaler.Strategy.Greatest.{IsGreatest, max_strategy-IsGreatest, max_strategy-returns}
use aom.Collector.{Sample, Worker}
use aom.HoltWinter.{HoltWinter}
use aom.Collector.Buffer.{Call, collects, sends, run, collected, run-collected}

-- Whole numbers in place of floats; a quotient is rounded up.
abbrev pub whole : Floats
whole = record {
  Float64 = ℤ;
  zero_float = pos 0;
  one_float = pos 1;
  add = ◌+ℤ◌;
  sub = λ a b. sub_ℕ (pos_part a + neg_part b) (neg_part a + pos_part b);
  mul = ◌*ℤ◌;
  div = λ a b. pos ((pos_part a + pos_part b - 1) / pos_part b);
  less = ltb_ℤ;
  of_int = λ a. a;
  ceil = λ a. a;
  to_int32 = wrap32;
  parse_float = λ s. elim (atoi s) [ ok n ↦ some n | err _ ↦ none | panic ↦ none ];
}

-- A cluster with one scale object, which is its replica count.
abbrev pub one_target : Scales
one_target = record {
  Cluster = ℤ;
  Scale = ℤ;
  replicas = λ s. s;
  with_replicas = λ _ n. n;
  group_of = λ v. v;
  get = λ c _. ok c;
  update = λ _ s _. (ok s, s);
}

pub one_target-IsScales : IsScales one_target
one_target-IsScales = record {
  replicas-with_replicas = λ s n. refl;
  get-update = λ c c' t s s' e. ap ok (ap (λ p. p.1) (sym e));
}

abbrev pub app : CrossVersionObjectReference
app = record {
  kind = codes "Deployment";
  name = codes "my-app-deployment";
  api_version = codes "apps/v1";
}

abbrev pub app_scaler : Scaler
app_scaler = record {
  max_replica = pos 5;
  min_replica = pos 3;
  namespace = codes "default";
  scale_target_ref = app;
}

-- A connected client, at a count.
abbrev pub at : ℤ → Client one_target
at n = record { once = true; set = true; cluster = n }

raised : up_to one_target app_scaler (pos 9) (at (pos 2)) ≡ (ok tt, at (pos 5))
unfolding up_to get_replica set_replica
raised = refl

current_two : current one_target app_scaler (at (pos 2)) ≡ ok (pos 2)
unfolding get_replica
current_two = refl

current_seven : current one_target app_scaler (at (pos 7)) ≡ ok (pos 7)
unfolding get_replica
current_seven = refl

lowered : up_to one_target app_scaler (pos 9) (at (pos 7)) ≡ (ok tt, at (pos 5))
unfolding up_to get_replica set_replica
lowered = refl

lifted_down : down_to one_target app_scaler (pos 1) (at (pos 7)) ≡ (ok tt, at (pos 3))
unfolding down_to get_replica set_replica
lifted_down = refl

up_to_lem_example : (pos 2 <ℤ pos 9) × (current one_target app_scaler (at (pos 5)) ≡ ok (pos 5))
up_to_lem_example =
    (up_to_lem one_target one_target-IsScales app_scaler (pos 9) (pos 2) (at (pos 2)) current_two).1
      (at (pos 5)) raised

up_to_bounds_example :
    (n : ℤ) × (current one_target app_scaler (at (pos 5)) ≡ ok n) × (pos 2 ≤ℤ n) × (n ≤ℤ pos 5)
up_to_bounds_example =
    up_to_bounds one_target one_target-IsScales app_scaler (pos 9) (pos 2) (at (pos 2)) current_two
      (omega arith) raised

abbrev fresh_client : Client one_target
fresh_client = record { once = false; set = false; cluster = pos 1 }

abbrev refused : Connect one_target
refused = record {
  build_config_from_flags = err (external 1);
  new_clientset_for_config = ok tt;
  get_api_group_resources = ok tt;
  new_scales_for_config = ok tt;
}

refused_once :
    new_client one_target refused fresh_client
    ≡ (err (external 1), record fresh_client { once = true })
unfolding new_client
refused_once = refl

new_client_after_failure_example :
    new_client one_target refused (record fresh_client { once = true })
    ≡ (ok tt, record fresh_client { once = true })
new_client_after_failure_example =
    (new_client_after_failure one_target refused refused fresh_client refl refl refused_once).0

abbrev first : List ℤ
first = pos 0 ∷ pos 1 ∷ pos 13 ∷ []

abbrev second : List ℤ
second = pos 0 ∷ pos 2 ∷ pos 3 ∷ []

max_run : max_strategy (first ∷ second ∷ []) ≡ ok (pos 0 ∷ pos 2 ∷ pos 13 ∷ [])
unfolding max_strategy
max_run = refl

min_run : min_strategy (first ∷ second ∷ []) ≡ ok (pos 0 ∷ pos 1 ∷ pos 3 ∷ [])
unfolding min_strategy
min_run = refl

mean_run : mean_strategy (first ∷ second ∷ []) ≡ ok (pos 0 ∷ pos 1 ∷ pos 8 ∷ [])
unfolding mean_strategy
mean_run = refl

max_strategy-IsGreatest_example :
    (m : ℤ) × (get_elem? (pos 0 ∷ pos 2 ∷ pos 13 ∷ []) 2 ≡ some m)
    × IsGreatest m (pos 0 ∷ pos 13 ∷ pos 3 ∷ [])
max_strategy-IsGreatest_example =
    (max_strategy-IsGreatest first (second ∷ []) max_run).2 2 (omega arith)

max_strategy-returns_example : (out : List ℤ) × (max_strategy (first ∷ second ∷ []) ≡ ok out)
max_strategy-returns_example = (max_strategy-returns first (second ∷ [])).0 refl

abbrev sample : ℕ → Sample whole
sample n = record { value = pos n; time_stamp = pos n }

abbrev empty_worker : Worker whole
empty_worker = record { name = []; unit = []; promql = []; samples = []; client = none }

abbrev calls : List (Call whole)
calls = collects (ok (sample 1 ∷ [])) ∷ sends ∷ collects (err (external 2)) ∷ sends ∷ []

run-collected_example :
    (run whole calls empty_worker).0 ++ (run whole calls empty_worker).1.samples ≡ sample 1 ∷ []
unfolding collected
run-collected_example = run-collected whole calls empty_worker

-- Seasons of two samples, and three samples ahead.
abbrev pub smoother : HoltWinter whole
smoother = record {
  debug = false;
  slen = pos 2;
  look_forward = pos 3;
  look_backward = pos 4;
  alpha = pos 1;
  beta = pos 0;
  gamma = pos 1;
  with_model_key = [];
  collector_worker = 0;
}

abbrev pub series : List ℤ
series = pos 4 ∷ pos 8 ∷ pos 4 ∷ pos 8 ∷ []
