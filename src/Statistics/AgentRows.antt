-- ===== src/Statistics/AgentRows.antt =====
-- database/queries/agent_stat.py: the statistics of agents, as queries over the tables. Two
-- columns of `_agent_stat_query`, the first and the last time, are left out: the services write
-- the period over them.
use wazo_call_logd.Common.{
  ℕ, Bool, false, not, ◌&&◌, Option, none, some, List, [], ◌∷◌, String, ◌==◌, map, eqb, keep, find,
  is_empty, length, sum_of, if◌then◌else◌,
}
use wazo_call_logd.Statistics.{Zone}
use wazo_call_logd.Statistics.Rows.{
  StatAgent, AgentTimes, StatAgentPeriodic, StatCallOnQueue, StatTables, Filters, joined_agent,
  add_tenant_filter, add_interval_query,
}
use wazo_call_logd.Statistics.QueueRows.{oldest}
use wazo_call_logd.Statistics.AgentQueues.{sum_times, AgentQueueStats, under_queue, merge_queues}

-- a row of `_agent_stat_query`, with what `_get_extra_stats` adds
pub record AgentStats : Type 0 where
  pub agent_id : ℕ
  pub agent_number : String
  pub tenant_uuid : String
  pub times : AgentTimes
  pub answered : ℕ
  pub conversation_time : ℕ

module _ (zone : Zone) (tables : StatTables zone.Datetime) where
  open zone use {Datetime, utc}
  open tables use {stat_queues, stat_agents, agent_periodics, calls}

  -- `AgentStatDAO.find_oldest_time`
  unfoldable pub find_oldest_agent_time : ℕ → Option Datetime
  unfolding oldest
  find_oldest_agent_time agent_id = oldest utc (
      map (λ p. p.time)
        (keep
          (λ p. elim (joined_agent stat_agents (some p.stat_agent_id)) [
            | none ↦ false
            | some a ↦ eqb a.agent_id agent_id && not a.deleted
          ])
          agent_periodics))

  unfoldable pub get_stat_agents : Option (List String) → List StatAgent
  unfolding add_tenant_filter
  get_stat_agents tenant_uuids =
      keep (λ a. not a.deleted && add_tenant_filter tenant_uuids a.tenant_uuid) stat_agents

  unfoldable pub get_stat_agent : ℕ → Option (List String) → Option StatAgent
  unfolding add_tenant_filter
  get_stat_agent agent_id tenant_uuids =
      find
        (λ a.
          eqb a.agent_id agent_id && not a.deleted && add_tenant_filter tenant_uuids a.tenant_uuid)
        stat_agents

  -- The calls that the agent answered, as far as the conditions select them.
  unfoldable pub is_answered_by :
      ℕ → Filters Datetime → Option (List String) → StatCallOnQueue Datetime → Bool
  unfolding add_interval_query
  is_answered_by agent_id f tenant_uuids call = elim (joined_agent stat_agents call.stat_agent_id) [
    | none ↦ false
    | some a ↦
        eqb a.agent_id agent_id
        && call.status == "answered"
        && add_interval_query zone f tenant_uuids a.tenant_uuid call.time
  ]

  -- `_get_answered_and_talk_time`
  unfoldable pub get_answered_and_talk_time : ℕ → Filters Datetime → Option (List String) → ℕ × ℕ
  unfolding is_answered_by
  get_answered_and_talk_time agent_id f tenant_uuids =
      let rows = keep (is_answered_by agent_id f tenant_uuids) calls in
      (length rows, sum_of (λ c. c.talktime) rows)

  -- The answered calls, each under its queue.
  unfoldable pub answered_under_queue :
      ℕ → Filters Datetime → Option (List String) → List (ℕ × StatCallOnQueue Datetime)
  unfolding is_answered_by under_queue
  answered_under_queue agent_id f tenant_uuids =
      under_queue stat_queues (λ c. c.stat_queue_id)
        (keep (is_answered_by agent_id f tenant_uuids) calls)

  -- `_agent_stat_query`, the rows of one agent: those without a queue
  unfoldable pub agent_periodics_of :
      Filters Datetime → Option (List String) → StatAgent → List (StatAgentPeriodic Datetime)
  unfolding add_interval_query
  agent_periodics_of f tenant_uuids a =
      keep
        (λ p. elim p.stat_queue_id [
          | some _ ↦ false
          | none ↦
              eqb p.stat_agent_id a.id
              && add_interval_query zone f tenant_uuids a.tenant_uuid p.time
        ])
        agent_periodics

  -- One group for each agent that has rows, in the order of the agents, each with what
  -- `_get_extra_stats` adds.
  unfoldable pub group_agents :
      Filters Datetime → Option (List String) → List StatAgent → List AgentStats
  unfolding agent_periodics_of sum_times get_answered_and_talk_time
  group_agents f tenant_uuids [] = []
  group_agents f tenant_uuids (a ∷ rest_agents) =
      let rest = group_agents f tenant_uuids rest_agents in
      let rows = agent_periodics_of f tenant_uuids a in
      let (answered, talk_time) = get_answered_and_talk_time a.agent_id f none in
      if is_empty rows
      then rest
      else record {
        agent_id = a.agent_id;
        agent_number = a.number;
        tenant_uuid = a.tenant_uuid;
        times = sum_times (map (λ p. p.times) rows);
        answered = answered;
        conversation_time = talk_time;
      }
        ∷ rest

  -- `AgentStatDAO.get_interval`
  unfoldable pub get_agent_intervals : Option (List String) → Filters Datetime → List AgentStats
  unfolding group_agents
  get_agent_intervals tenant_uuids f =
      group_agents f tenant_uuids (keep (λ a. not a.deleted) stat_agents)

  unfoldable pub get_interval_by_agent :
      Option (List String) → ℕ → Filters Datetime → Option AgentStats
  unfolding get_agent_intervals
  get_interval_by_agent tenant_uuids agent_id f =
      find (λ r. eqb r.agent_id agent_id) (get_agent_intervals tenant_uuids f)

  -- `_agent_queue_stat_query` for one agent, its rows under their queues before they are summed
  unfoldable pub agent_queue_rows :
      ℕ → Filters Datetime → Option (List String) → List (ℕ × StatAgentPeriodic Datetime)
  unfolding add_interval_query under_queue
  agent_queue_rows agent_id f tenant_uuids =
      under_queue stat_queues (λ p. p.stat_queue_id)
        (keep
          (λ p. elim (joined_agent stat_agents (some p.stat_agent_id)) [
            | none ↦ false
            | some a ↦
                eqb a.agent_id agent_id
                && not a.deleted
                && add_interval_query zone f tenant_uuids a.tenant_uuid p.time
          ])
          agent_periodics)

  unfoldable pub get_per_queue_intervals_for_agent :
      Option (List String) → ℕ → Filters Datetime → List AgentQueueStats
  unfolding merge_queues agent_queue_rows answered_under_queue
  get_per_queue_intervals_for_agent tenant_uuids agent_id f =
      merge_queues (agent_queue_rows agent_id f tenant_uuids)
        (answered_under_queue agent_id f tenant_uuids)
