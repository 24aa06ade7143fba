-- ===== src/Statistics/PerQueue.antt =====
-- `AgentStatDAO.get_per_queue_intervals_for_agent`: the statistics of an agent, queue by queue.
use wazo_call_logd.Common.{
  ℕ, ◌≡◌, refl, ◌∙◌, sym, ap, true, Option, List, [], ◌∷◌, ◌++◌, String, map, eqb, mem, not, keep,
  IsDistinct, distinct-IsDistinct, mem-distinct, IsDistinct-append, mem-append_new, sum_of-at,
  sum_of-All, length-eq-sum_of, sum_of, sum_of-append, sum_of-map, sum_of-keep, sum_of_comm,
  sum_of_cong, sum_of-zero, length, All, All-map, arith, if◌then◌else◌,
}
use wazo_call_logd.Statistics.{Zone}
use wazo_call_logd.Statistics.Rows.{
  AgentTimes, StatAgentPeriodic, StatCallOnQueue, StatTables, Filters,
}
use wazo_call_logd.Statistics.AgentQueues.{
  AgentQueueStats, sum_times, no_times, rows_under, group_keys, answered_and_talk_time,
  covered_queue, answered_queue, merge_queues,
}
use wazo_call_logd.Statistics.AgentRows.{
  agent_queue_rows, answered_under_queue, get_per_queue_intervals_for_agent,
}

module _ {ℓ} {A : Type ℓ} where
  -- Every row has its key among the keys.
  All-group_keys : (rows : List (ℕ × A)) → All (λ r. mem r.0 (group_keys rows) ≡ true) rows
  unfolding group_keys
  All-group_keys rows =
      All-map (λ r. mem r.0 (map (λ q. q.0) rows) ≡ true) (λ r. mem r.0 (group_keys rows) ≡ true)
        rows (λ r h. mem-distinct r.0 (map (λ q. q.0) rows) ∙ h) (keys rows)
    where
      keys : (rs : List (ℕ × A)) → All (λ r. mem r.0 (map (λ q. q.0) rs) ≡ true) rs
      keys [] = tt
      keys (r ∷ rs) = (
        ground arith,
        All-map (λ q. mem q.0 (map (λ q. q.0) rs) ≡ true)
            (λ q. mem q.0 (map (λ q. q.0) (r ∷ rs)) ≡ true) rs (λ q h. ground arith) (keys rs),
      )

  group_keys-IsDistinct : (rows : List (ℕ × A)) → IsDistinct (group_keys rows)
  unfolding group_keys
  group_keys-IsDistinct rows = distinct-IsDistinct (map (λ r. r.0) rows)

  -- Summed key by key is summed row by row, if every key is there once.
  sum_of-rows_under :
      (w : A → ℕ) (rows : List (ℕ × A)) (ks : List ℕ)
      → IsDistinct ks
      → All (λ r. mem r.0 ks ≡ true) rows
      → sum_of (λ k. sum_of w (rows_under rows k)) ks ≡ sum_of (λ r. w r.1) rows
  unfolding rows_under
  sum_of-rows_under w rows ks d h =
      sum_of_cong _ _ ks (λ k.
        sum_of-map w (λ r. r.1) (keep (λ r. eqb r.0 k) rows)
        ∙ sum_of-keep (λ r. w r.1) (λ r. eqb r.0 k) rows)
      ∙ sum_of_comm (λ k r. if eqb r.0 k then w r.1 else 0) ks rows
      ∙ sum_of-All _ _ rows
          (All-map _ _ rows (λ r e. ground (arith, e, sum_of-at r.0 (w r.1) ks d)) h)

map-queue_id :
    (make : ℕ → AgentQueueStats) (ks : List ℕ)
    → ((k : ℕ) → (make k).queue_id ≡ k)
    → map (λ s. s.queue_id) (map make ks) ≡ ks
map-queue_id make [] h = refl
map-queue_id make (k ∷ ks) h = ground (arith, h k, map-queue_id make ks h)

map-append {ℓ κ} :
    {A : Type ℓ} {B : Type κ} (f : A → B) (xs ys : List A) → map f (xs ++ ys) ≡ map f xs ++ map f ys
map-append f [] ys = refl
map-append f (x ∷ xs) ys = ap (◌∷◌ (f x)) (map-append f xs ys)

module _ {D : Type 0} (rows : List (ℕ × StatAgentPeriodic D))
    (answered : List (ℕ × StatCallOnQueue D)) where
  new_keys : List ℕ
  new_keys = keep (λ k. not (mem k (group_keys rows))) (group_keys answered)

  merge_keys : List ℕ
  unfolding new_keys
  merge_keys = group_keys rows ++ new_keys

  queue_ids-merge_queues : map (λ s. s.queue_id) (merge_queues rows answered) ≡ merge_keys
  unfolding merge_queues merge_keys new_keys covered_queue answered_queue
  queue_ids-merge_queues =
      map-append (λ s. s.queue_id) (map (covered_queue rows answered) (group_keys rows)) _
      ∙ ap (λ ks. ks ++ map (λ s. s.queue_id) (map (answered_queue answered) new_keys))
          (map-queue_id (covered_queue rows answered) (group_keys rows) (λ k. refl))
      ∙ ap (λ ks. group_keys rows ++ ks)
          (map-queue_id (answered_queue answered) new_keys (λ k. refl))

  merge_keys-IsDistinct : IsDistinct merge_keys
  unfolding merge_keys new_keys
  merge_keys-IsDistinct =
      IsDistinct-append (group_keys rows) (group_keys answered) (group_keys-IsDistinct rows)
        (group_keys-IsDistinct answered)

  answered-All : All (λ r. mem r.0 merge_keys ≡ true) answered
  unfolding merge_keys new_keys
  answered-All =
      All-map _ _ answered
        (λ r h. ground (arith, h, mem-append_new r.0 (group_keys rows) (group_keys answered)))
        (All-group_keys answered)

  -- A column of the merge is the column over its keys.
  sum_of-merge_queues :
      (col : AgentQueueStats → ℕ) (w : ℕ → ℕ)
      → ((k : ℕ) → col (covered_queue rows answered k) ≡ w k)
      → ((k : ℕ) → col (answered_queue answered k) ≡ w k)
      → sum_of col (merge_queues rows answered) ≡ sum_of w merge_keys
  unfolding merge_queues merge_keys new_keys
  sum_of-merge_queues col w h j = omega (
    arith,
    sum_of-append col (map (covered_queue rows answered) (group_keys rows))
        (map (answered_queue answered) new_keys),
    sum_of-map col (covered_queue rows answered) (group_keys rows),
    sum_of-map col (answered_queue answered) new_keys,
    sum_of_cong (λ k. col (covered_queue rows answered k)) w (group_keys rows) h,
    sum_of_cong (λ k. col (answered_queue answered k)) w new_keys j,
    sum_of-append w (group_keys rows) new_keys,
  )

  -- A column of times is summed over the rows alone.
  times-merge_queues :
      (col : AgentTimes → ℕ)
      → col no_times ≡ 0
      → ((ts : List AgentTimes) → col (sum_times ts) ≡ sum_of col ts)
      → sum_of (λ s. col s.times) (merge_queues rows answered) ≡ sum_of (λ r. col r.1.times) rows
  unfolding merge_queues covered_queue answered_queue new_keys
  times-merge_queues col z h = omega (
    arith,
    sum_of-append (λ s. col s.times) (map (covered_queue rows answered) (group_keys rows))
        (map (answered_queue answered) new_keys),
    sum_of-map (λ s. col s.times) (covered_queue rows answered) (group_keys rows),
    sum_of-map (λ s. col s.times) (answered_queue answered) new_keys,
    sum_of_cong (λ k. col no_times) (λ _. 0) new_keys (λ _. z),
    sum_of-zero new_keys,
    sum_of_cong (λ k. col (sum_times (map (λ p. p.times) (rows_under rows k))))
        (λ k. sum_of (λ p. col p.times) (rows_under rows k)) (group_keys rows)
        (λ k.
          h (map (λ p. p.times) (rows_under rows k))
          ∙ sum_of-map col (λ p. p.times) (rows_under rows k)),
    sum_of-rows_under (λ p. col p.times) rows (group_keys rows) (group_keys-IsDistinct rows)
        (All-group_keys rows),
  )

  -- The merge names each queue once, and loses or doubles no call and no time.
  pub record IsMerge (merged : List AgentQueueStats) : Type 0 where
    pub once : IsDistinct (map (λ s. s.queue_id) merged)
    pub calls : sum_of (λ s. s.answered) merged ≡ length answered
    pub talk : sum_of (λ s. s.conversation_time) merged ≡ sum_of (λ r. r.1.talktime) answered
    pub login : sum_of (λ s. s.times.login_time) merged ≡ sum_of (λ r. r.1.times.login_time) rows
    pub pause : sum_of (λ s. s.times.pause_time) merged ≡ sum_of (λ r. r.1.times.pause_time) rows
    pub wrapup : sum_of (λ s. s.times.wrapup_time) merged ≡ sum_of (λ r. r.1.times.wrapup_time) rows

  pub merge_queues-IsMerge : IsMerge (merge_queues rows answered)
  unfolding covered_queue answered_queue answered_and_talk_time sum_times
  merge_queues-IsMerge = record {
    once = rw queue_ids-merge_queues merge_keys-IsDistinct;
    calls =
        sum_of-merge_queues (λ s. s.answered) (λ k. sum_of (λ _. 1) (rows_under answered k))
          (λ k. length-eq-sum_of (rows_under answered k))
          (λ k. length-eq-sum_of (rows_under answered k))
        ∙ sum_of-rows_under (λ _. 1) answered merge_keys merge_keys-IsDistinct answered-All
        ∙ sym (length-eq-sum_of answered);
    talk =
        sum_of-merge_queues (λ s. s.conversation_time)
          (λ k. sum_of (λ c. c.talktime) (rows_under answered k)) (λ k. refl) (λ k. refl)
        ∙ sum_of-rows_under (λ c. c.talktime) answered merge_keys merge_keys-IsDistinct
            answered-All;
    login = times-merge_queues (λ t. t.login_time) refl (λ ts. refl);
    pause = times-merge_queues (λ t. t.pause_time) refl (λ ts. refl);
    wrapup = times-merge_queues (λ t. t.wrapup_time) refl (λ ts. refl);
  }

-- The statistics of an agent by queue name every queue at most once. Over all queues, the answered
-- calls and their talk times add up to those of the agent's answered calls that belong to a queue,
-- and the times to those of the agent's periodic rows that belong to a queue.
pub get_per_queue_intervals_for_agent-IsMerge :
    (zone : Zone) (tables : StatTables zone.Datetime) (tenant_uuids : Option (List String))
    (agent_id : ℕ) (f : Filters zone.Datetime)
    → IsMerge
        (agent_queue_rows zone tables agent_id f tenant_uuids)
        (answered_under_queue zone tables agent_id f tenant_uuids)
        (get_per_queue_intervals_for_agent zone tables tenant_uuids agent_id f)
unfolding get_per_queue_intervals_for_agent
get_per_queue_intervals_for_agent-IsMerge zone tables tenant_uuids agent_id f =
    merge_queues-IsMerge (agent_queue_rows zone tables agent_id f tenant_uuids)
      (answered_under_queue zone tables agent_id f tenant_uuids)
