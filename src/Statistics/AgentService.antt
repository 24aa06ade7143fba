-- ===== src/Statistics/AgentService.antt =====
-- plugins/support_center/services.py: `AgentStatisticsService`.
use wazo_call_logd.Common.{
  ℕ, Option, some, List, String, map, Result, ok, ◌>>=◌, require, agent_not_found,
}
use wazo_call_logd.Statistics.{Zone}
use wazo_call_logd.Statistics.Rows.{StatAgent, StatTables}
use wazo_call_logd.Statistics.AgentRows.{
  AgentStats, find_oldest_agent_time, get_stat_agents, get_stat_agent, get_agent_intervals,
  get_interval_by_agent, get_per_queue_intervals_for_agent,
}
use wazo_call_logd.Statistics.Service.{
  Args, AgentItem, StatPage, stat_page, last_with, by_id, get_tomorrow, or_else, or_oldest,
  filters_of, timeframes, with_period,
}

module _ (zone : Zone) (tables : StatTables zone.Datetime) where
  open zone use {Datetime}

  unfoldable pub agent_item :
      Option (List String)
      → Args Datetime
      → StatAgent
      → ℕ
      → Option Datetime
      → Datetime
      → AgentItem Datetime
  unfolding filters_of get_interval_by_agent get_per_queue_intervals_for_agent
  agent_item tenant_uuids args a agent_id from until =
      let f = filters_of zone args from (some until) in
      record {
        from_ = from;
        until = until;
        agent_id = agent_id;
        agent_number = a.number;
        tenant_uuid = a.tenant_uuid;
        stats = get_interval_by_agent zone tables tenant_uuids agent_id f;
        queues = get_per_queue_intervals_for_agent zone tables tenant_uuids agent_id f;
      }

  -- `AgentStatisticsService.get`
  unfoldable pub get_agent :
      Datetime → Option (List String) → ℕ → Args Datetime → Result (StatPage (AgentItem Datetime))
  unfolding get_stat_agent find_oldest_agent_time get_tomorrow timeframes agent_item
  get_agent now tenant_uuids agent_id args = do
    stat_agent ← require agent_not_found (get_stat_agent zone tables agent_id tenant_uuids)
    let from = or_oldest args.from_ (find_oldest_agent_time zone tables agent_id)
    let until = or_else args.until (get_tomorrow zone now)
    frames ← timeframes zone args args.interval from until
    ok (with_period (agent_item tenant_uuids args stat_agent agent_id) from until frames)

  unfoldable pub list_agent_item :
      Datetime
      → Option (List String)
      → Args Datetime
      → List AgentStats
      → StatAgent
      → AgentItem Datetime
  unfolding get_tomorrow last_with find_oldest_agent_time get_per_queue_intervals_for_agent
      filters_of
  list_agent_item now tenant_uuids args rows a = record {
    from_ = or_oldest args.from_ (find_oldest_agent_time zone tables a.agent_id);
    until = or_else args.until (get_tomorrow zone now);
    agent_id = a.agent_id;
    agent_number = a.number;
    tenant_uuid = a.tenant_uuid;
    stats = last_with (λ r. r.agent_id) rows a.agent_id;
    queues =
        get_per_queue_intervals_for_agent zone tables tenant_uuids a.agent_id
          (filters_of zone args args.from_ args.until);
  }

  -- `AgentStatisticsService.list`
  unfoldable pub list_agents :
      Datetime → Option (List String) → Args Datetime → StatPage (AgentItem Datetime)
  unfolding by_id get_stat_agents get_agent_intervals list_agent_item filters_of
  list_agents now tenant_uuids args =
      let rows =
        get_agent_intervals zone tables tenant_uuids (filters_of zone args args.from_ args.until) in
      stat_page (
        map (list_agent_item now tenant_uuids args rows)
          (by_id (λ a. a.agent_id) (get_stat_agents zone tables tenant_uuids)))
