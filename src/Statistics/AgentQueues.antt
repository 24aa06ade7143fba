-- ===== src/Statistics/AgentQueues.antt =====
-- database/queries/agent_stat.py: the sums of an agent's rows by queue, and the merge of the two queries
-- in `get_per_queue_intervals_for_agent`.
use wazo_call_logd.Common.{
  ℕ, not, Option, none, some, List, [], ◌∷◌, ◌++◌, map, eqb, keep, length, sum_of, mem, distinct,
}
use wazo_call_logd.Statistics.Rows.{
  StatQueue, AgentTimes, StatAgentPeriodic, StatCallOnQueue, joined_queue,
}

pub record AgentQueueStats : Type 0 where
  pub queue_id : ℕ
  pub answered : ℕ
  pub conversation_time : ℕ
  pub times : AgentTimes

unfoldable pub sum_times : List AgentTimes → AgentTimes
sum_times rows = record {
  login_time = sum_of (λ r. r.login_time) rows;
  pause_time = sum_of (λ r. r.pause_time) rows;
  wrapup_time = sum_of (λ r. r.wrapup_time) rows;
}

abbrev pub no_times : AgentTimes
no_times = record { login_time = 0; pause_time = 0; wrapup_time = 0 }

module _ {ℓ} {A : Type ℓ} where
  -- The rows under one key of GROUP BY.
  unfoldable pub rows_under : List (ℕ × A) → ℕ → List A
  rows_under rows k = map (λ r. r.1) (keep (λ r. eqb r.0 k) rows)

  -- The keys of GROUP BY, in the order of the rows.
  unfoldable pub group_keys : List (ℕ × A) → List ℕ
  group_keys rows = distinct (map (λ r. r.0) rows)

  -- The rows that are joined with a queue, under its `queue_id`; the others drop out.
  unfoldable pub under_queue : List StatQueue → (A → Option ℕ) → List A → List (ℕ × A)
  under_queue queues key [] = []
  under_queue queues key (r ∷ rs) =
      let rest = under_queue queues key rs in
      elim (joined_queue queues (key r)) [ none ↦ rest | some q ↦ (q.queue_id, r) ∷ rest ]

module _ {D : Type 0} where
  -- `_get_answered_and_talk_time_per_queue`, at one queue
  unfoldable pub answered_and_talk_time : List (ℕ × StatCallOnQueue D) → ℕ → ℕ × ℕ
  unfolding rows_under
  answered_and_talk_time rows queue_id =
      (length (rows_under rows queue_id), sum_of (λ c. c.talktime) (rows_under rows queue_id))

  -- A queue with rows of the agent, and one with answered calls only.
  unfoldable pub covered_queue :
      List (ℕ × StatAgentPeriodic D) → List (ℕ × StatCallOnQueue D) → ℕ → AgentQueueStats
  unfolding answered_and_talk_time rows_under sum_times
  covered_queue rows answered k =
      let (number, talktime) = answered_and_talk_time answered k in
      record {
        queue_id = k;
        answered = number;
        conversation_time = talktime;
        times = sum_times (map (λ p. p.times) (rows_under rows k));
      }

  unfoldable pub answered_queue : List (ℕ × StatCallOnQueue D) → ℕ → AgentQueueStats
  unfolding answered_and_talk_time
  answered_queue answered k =
      let (number, talktime) = answered_and_talk_time answered k in
      record { queue_id = k; answered = number; conversation_time = talktime; times = no_times }

  -- The two loops of `get_per_queue_intervals_for_agent`.
  unfoldable pub merge_queues :
      List (ℕ × StatAgentPeriodic D) → List (ℕ × StatCallOnQueue D) → List AgentQueueStats
  unfolding covered_queue answered_queue group_keys
  merge_queues rows answered =
      let covered = group_keys rows in
      map (covered_queue rows answered) covered
      ++ map (answered_queue answered) (keep (λ k. not (mem k covered)) (group_keys answered))
