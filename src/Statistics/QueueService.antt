-- ===== src/Statistics/QueueService.antt =====
-- plugins/support_center/services.py: `QueueStatisticsService`.
use wazo_call_logd.Common.{
  ℕ, Option, some, List, [], ◌∷◌, String, map, Result, ok, ◌>>=◌, require, queue_not_found,
}
use wazo_call_logd.Statistics.{Zone, generate_qos_interval}
use wazo_call_logd.Statistics.Rows.{StatQueue, StatTables, Filters}
use wazo_call_logd.Statistics.QueueRows.{
  Rounding, QueueStats, find_oldest_queue_time, get_stat_queues, get_stat_queue,
  get_queue_intervals, get_interval_by_queue, get_qos_interval_by_queue,
}
use wazo_call_logd.Statistics.Service.{
  Args, QueueItem, QosClass, QosItem, StatPage, stat_page, last_with, by_id, get_tomorrow, or_else,
  or_oldest, filters_of, timeframes, with_period,
}

module _ (zone : Zone) (tables : StatTables zone.Datetime) where
  open zone use {Datetime}

  unfoldable pub qos_classes :
      Option (List String) → ℕ → Filters Datetime → List (ℕ × Option ℕ) → List QosClass
  unfolding get_qos_interval_by_queue
  qos_classes tenant_uuids queue_id f [] = []
  qos_classes tenant_uuids queue_id f ((qos_min, qos_max) ∷ classes) =
      let counts =
        get_qos_interval_by_queue zone tables tenant_uuids queue_id (some qos_min) qos_max f in
      record { min = qos_min; max = qos_max; answered = counts.0; abandoned = counts.1 }
      ∷ qos_classes tenant_uuids queue_id f classes

  unfoldable pub qos_item :
      Option (List String)
      → Args Datetime
      → List ℕ
      → StatQueue
      → ℕ
      → Option Datetime
      → Datetime
      → QosItem Datetime
  unfolding qos_classes generate_qos_interval filters_of
  qos_item tenant_uuids args qos_thresholds q queue_id from until = record {
    from_ = from;
    until = until;
    queue_id = queue_id;
    queue_name = q.name;
    tenant_uuid = q.tenant_uuid;
    quality_of_service =
        qos_classes tenant_uuids queue_id (filters_of zone args from (some until))
          (generate_qos_interval qos_thresholds);
  }

  -- `QueueStatisticsService.get_qos`
  unfoldable pub get_qos :
      Datetime
      → Option (List String)
      → ℕ
      → Args Datetime
      → List ℕ
      → Result (StatPage (QosItem Datetime))
  unfolding get_stat_queue find_oldest_queue_time get_tomorrow timeframes qos_item
  get_qos now tenant_uuids queue_id args qos_thresholds = do
    stat_queue ← require queue_not_found (get_stat_queue zone tables queue_id tenant_uuids)
    let from = or_oldest args.from_ (find_oldest_queue_time zone tables queue_id)
    let until = or_else args.until (get_tomorrow zone now)
    frames ← timeframes zone args args.interval from until
    ok (
        with_period (qos_item tenant_uuids args qos_thresholds stat_queue queue_id) from until
          frames)

  module _ (rounding : Rounding) where
    unfoldable pub queue_item :
        Option (List String)
        → Args Datetime
        → StatQueue
        → ℕ
        → Option Datetime
        → Datetime
        → QueueItem Datetime
    unfolding filters_of get_interval_by_queue
    queue_item tenant_uuids args q queue_id from until = record {
      from_ = from;
      until = until;
      queue_id = queue_id;
      queue_name = q.name;
      tenant_uuid = q.tenant_uuid;
      stats =
          get_interval_by_queue zone tables rounding tenant_uuids queue_id
            (filters_of zone args from (some until));
    }

    -- `QueueStatisticsService.get`
    unfoldable pub get_queue :
        Datetime → Option (List String) → ℕ → Args Datetime → Result (StatPage (QueueItem Datetime))
    unfolding get_stat_queue find_oldest_queue_time get_tomorrow timeframes queue_item
    get_queue now tenant_uuids queue_id args = do
      stat_queue ← require queue_not_found (get_stat_queue zone tables queue_id tenant_uuids)
      let from = or_oldest args.from_ (find_oldest_queue_time zone tables queue_id)
      let until = or_else args.until (get_tomorrow zone now)
      frames ← timeframes zone args args.interval from until
      ok (with_period (queue_item tenant_uuids args stat_queue queue_id) from until frames)

    unfoldable pub list_queue_item :
        Datetime → Args Datetime → List QueueStats → StatQueue → QueueItem Datetime
    unfolding get_tomorrow last_with find_oldest_queue_time
    list_queue_item now args rows q = record {
      from_ = or_oldest args.from_ (find_oldest_queue_time zone tables q.queue_id);
      until = or_else args.until (get_tomorrow zone now);
      queue_id = q.queue_id;
      queue_name = q.name;
      tenant_uuid = q.tenant_uuid;
      stats = last_with (λ r. r.basic.queue_id) rows q.queue_id;
    }

    -- `QueueStatisticsService.list`
    unfoldable pub list_queues :
        Datetime → Option (List String) → Args Datetime → StatPage (QueueItem Datetime)
    unfolding by_id get_stat_queues get_queue_intervals list_queue_item filters_of
    list_queues now tenant_uuids args =
        let rows =
          get_queue_intervals zone tables rounding tenant_uuids
            (filters_of zone args args.from_ args.until) in
        stat_page (
          map (list_queue_item now args rows)
            (by_id (λ q. q.queue_id) (get_stat_queues zone tables tenant_uuids)))
