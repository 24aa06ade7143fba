-- ===== src/Statistics/QosItems.antt =====
-- `QueueStatisticsService.get_qos` and the queries behind it: the calls in the classes of waiting
-- times.
use wazo_call_logd.Common.{
  ℕ, ◌+◌, ◌≡◌, refl, ◌∙◌, sym, true, Bool, ◌&&◌, Option, none, some, List, [], ◌∷◌, String, ◌==◌,
  map, leb, sum_of, keep, length, All, All-append, Returns, Returns-bind, require, arith, keep_cong,
  length-keep-eq-count, sum_of_add, sum_of-zero, sum_of_cong, ap, if◌then◌else◌, leb→le,
}
use wazo_call_logd.Common.Sort.{sort, sort-IsSorted, IsSorted}
use wazo_call_logd.Statistics.{Zone, generate_qos_interval}
use wazo_call_logd.Statistics.Qos.{in_class, classes_of, Ascends, generate_qos_interval_partition}
use wazo_call_logd.Statistics.Rows.{StatQueue, StatTables, Filters}
use wazo_call_logd.Statistics.QueueRows.{
  is_call_of_queue, qos_interval_query, get_qos_interval_by_queue, get_stat_queue,
  find_oldest_queue_time,
}
use wazo_call_logd.Statistics.Service.{
  Args, QosItem, sort_qos_thresholds, filters_of, timeframes, get_tomorrow, or_oldest, or_else,
}
use wazo_call_logd.Statistics.QueueService.{qos_classes, qos_item, get_qos}

module _ {ℓ} {A : Type ℓ} (wait : A → ℕ) (p : A → Bool) where
  -- Counted class by class is counted call by call.
  sum_of-in_class :
      (classes : List (ℕ × Option ℕ)) (xs : List A)
      → sum_of (λ c. length (keep (λ x. p x && in_class (wait x) c) xs)) classes
        ≡ sum_of (λ x. if p x then classes_of (wait x) classes else 0) xs
  sum_of-in_class [] xs =
      sym (sum_of_cong (λ x. if p x then 0 else 0) (λ _. 0) xs (λ x. ground arith) ∙ sum_of-zero xs)
  sum_of-in_class (c ∷ classes) xs =
      let here : A → ℕ = λ x. if p x && in_class (wait x) c then 1 else 0 in
      let later : A → ℕ = λ x. if p x then classes_of (wait x) classes else 0 in
      omega (
        arith,
        length-keep-eq-count (λ x. p x && in_class (wait x) c) xs,
        sum_of-in_class classes xs,
        sum_of_add here later xs,
        sum_of_cong (λ x. if p x then classes_of (wait x) (c ∷ classes) else 0)
            (λ x. here x + later x) xs (λ x. ground arith),
      )

  sum_of-one_class :
      (classes : List (ℕ × Option ℕ)) (xs : List A)
      → ((x : A) → classes_of (wait x) classes ≡ 1)
      → sum_of (λ c. length (keep (λ x. p x && in_class (wait x) c) xs)) classes
        ≡ length (keep p xs)
  sum_of-one_class classes xs one =
      sum_of-in_class classes xs
      ∙ sum_of_cong (λ x. if p x then classes_of (wait x) classes else 0)
          (λ x. if p x then 1 else 0) xs (λ x. ground (arith, one x))
      ∙ sym (length-keep-eq-count p xs)

IsSorted-Ascends :
    (low : ℕ) (ts : List ℕ) → All (λ t. leb low t ≡ true) ts → IsSorted leb ts → Ascends low ts
IsSorted-Ascends low [] h k = tt
IsSorted-Ascends low (t ∷ ts) (ht, h) (kt, k) = (leb→le low t ht, IsSorted-Ascends t ts kt k)

All-at_least_0 : (ts : List ℕ) → All (λ t. leb 0 t ≡ true) ts
All-at_least_0 [] = tt
All-at_least_0 (t ∷ ts) = (ground arith, All-at_least_0 ts)

-- After the schema has sorted the thresholds, a waiting time falls in exactly one class.
classes_of-sort_qos_thresholds :
    (w : ℕ) (ts : List ℕ) → classes_of w (generate_qos_interval (sort_qos_thresholds ts)) ≡ 1
unfolding sort_qos_thresholds
classes_of-sort_qos_thresholds w ts = generate_qos_interval_partition w (sort leb ts) (
    IsSorted-Ascends 0 (sort leb ts) (All-at_least_0 (sort leb ts))
      (sort-IsSorted leb (λ x y. ground arith) (λ x y z h k. ground arith) ts))

module _ (zone : Zone) (tables : StatTables zone.Datetime) (tenant_uuids : Option (List String))
    (queue_id : ℕ) where
  -- The count of one class, with the class as one condition.
  qos_interval_query-in_class :
      (status : String) (f : Filters zone.Datetime) (c : ℕ × Option ℕ)
      → qos_interval_query zone tables queue_id status (some c.0) c.1 f tenant_uuids
        ≡ length (
            keep
              (λ x.
                (is_call_of_queue zone tables queue_id f tenant_uuids x && x.status == status)
                && in_class x.waittime c)
              tables.calls)
  unfolding qos_interval_query
  qos_interval_query-in_class status f (low, none) =
      ap length (keep_cong _ _ tables.calls (λ x. ground arith))
  qos_interval_query-in_class status f (low, some high) =
      ap length (keep_cong _ _ tables.calls (λ x. ground arith))

  qos_interval_query-all :
      (status : String) (f : Filters zone.Datetime)
      → length (
          keep
            (λ x. is_call_of_queue zone tables queue_id f tenant_uuids x && x.status == status)
            tables.calls)
        ≡ qos_interval_query zone tables queue_id status none none f tenant_uuids
  unfolding qos_interval_query
  qos_interval_query-all status f = ap length (keep_cong _ _ tables.calls (λ x. ground arith))

  sum_of-classes :
      (status : String) (f : Filters zone.Datetime) (ts : List ℕ)
      → sum_of
          (λ c. qos_interval_query zone tables queue_id status (some c.0) c.1 f tenant_uuids)
          (generate_qos_interval (sort_qos_thresholds ts))
        ≡ qos_interval_query zone tables queue_id status none none f tenant_uuids
  sum_of-classes status f ts =
      let classes = generate_qos_interval (sort_qos_thresholds ts) in
      sum_of_cong _ _ classes (qos_interval_query-in_class status f)
      ∙ sum_of-one_class (λ x. x.waittime)
          (λ x. is_call_of_queue zone tables queue_id f tenant_uuids x && x.status == status)
          classes tables.calls (λ x. classes_of-sort_qos_thresholds x.waittime ts)
      ∙ qos_interval_query-all status f

  sum_of-answered :
      (f : Filters zone.Datetime) (classes : List (ℕ × Option ℕ))
      → sum_of (λ c. c.answered) (qos_classes zone tables tenant_uuids queue_id f classes)
        ≡ sum_of
            (λ c. qos_interval_query zone tables queue_id "answered" (some c.0) c.1 f tenant_uuids)
            classes
  unfolding qos_classes get_qos_interval_by_queue
  sum_of-answered f [] = refl
  sum_of-answered f ((low, high) ∷ classes) = omega (arith, sum_of-answered f classes)

  sum_of-abandoned :
      (f : Filters zone.Datetime) (classes : List (ℕ × Option ℕ))
      → sum_of (λ c. c.abandoned) (qos_classes zone tables tenant_uuids queue_id f classes)
        ≡ sum_of
            (λ c. qos_interval_query zone tables queue_id "abandoned" (some c.0) c.1 f tenant_uuids)
            classes
  unfolding qos_classes get_qos_interval_by_queue
  sum_of-abandoned f [] = refl
  sum_of-abandoned f ((low, high) ∷ classes) = omega (arith, sum_of-abandoned f classes)

  -- The classes of an item together count the calls of its period, each once.
  abbrev pub IsPartitioned : Args zone.Datetime → QosItem zone.Datetime → Type 0
  IsPartitioned args item =
      let f = filters_of zone args item.from_ (some item.until) in
      (sum_of (λ c. c.answered) item.quality_of_service
        ≡ qos_interval_query zone tables queue_id "answered" none none f tenant_uuids)
      × (sum_of (λ c. c.abandoned) item.quality_of_service
          ≡ qos_interval_query zone tables queue_id "abandoned" none none f tenant_uuids)

  qos_item-IsPartitioned :
      (args : Args zone.Datetime) (ts : List ℕ) (q : StatQueue) (from : Option zone.Datetime)
      (until : zone.Datetime)
      → IsPartitioned args
          (qos_item zone tables tenant_uuids args (sort_qos_thresholds ts) q queue_id from until)
  unfolding qos_item
  qos_item-IsPartitioned args ts q from until =
      let f = filters_of zone args from (some until) in
      let classes = generate_qos_interval (sort_qos_thresholds ts) in
      (
        sum_of-answered f classes ∙ sum_of-classes "answered" f ts,
        sum_of-abandoned f classes ∙ sum_of-classes "abandoned" f ts,
      )

  All-frames :
      (args : Args zone.Datetime) (ts : List ℕ) (q : StatQueue)
      (frames : List (zone.Datetime × zone.Datetime))
      → All (IsPartitioned args) (
          map
            (λ (start, end).
              qos_item zone tables tenant_uuids args
                (sort_qos_thresholds ts)
                q
                queue_id
                (some start)
                end)
            frames)
  All-frames args ts q [] = tt
  All-frames args ts q ((start, end) ∷ frames) =
      (qos_item-IsPartitioned args ts q (some start) end, All-frames args ts q frames)

  -- With the thresholds of a request, sorted as the schema sorts them, every item that `get_qos`
  -- gives counts each answered call of the queue in its period in exactly one class, and each
  -- abandoned call as well.
  pub get_qos-IsPartitioned :
      (now : zone.Datetime) (args : Args zone.Datetime) (ts : List ℕ)
      → Returns
          (λ p. All (IsPartitioned args) p.items)
          (get_qos zone tables now tenant_uuids queue_id args (sort_qos_thresholds ts))
  unfolding get_qos
  get_qos-IsPartitioned now args ts =
      let from = or_oldest args.from_ (find_oldest_queue_time zone tables queue_id) in
      let until = or_else args.until (get_tomorrow zone now) in
      Returns-bind _ (require _ (get_stat_queue zone tables queue_id tenant_uuids)) _ λ q e.
        Returns-bind _ (timeframes zone args args.interval from until) _ λ frames k.
          All-append (IsPartitioned args) _ _ (All-frames args ts q frames)
            (qos_item-IsPartitioned args ts q from until, tt)
