-- ===== src/Lib.antt =====
-- wazo-call-logd turns the channel event log (CEL) of Asterisk into call logs. The development
-- models that way from the CELs of a batch to the call logs that are stored, the purge of what was
-- stored, the lists of call logs and the deletion and export of their recordings, the transcriptions
-- of voicemail messages, the retention of tenants, and the statistics of the
-- call centre.
--
-- How the parts interact. `CallLogsGenerator` (wazo_call_logd/generator.py) groups the CELs of a
-- batch by shared channels, gives each group that has ended to the first interpretor that accepts
-- it (wazo_call_logd/cel_interpretor.py), and completes the `RawCallLog` that comes back
-- (wazo_call_logd/raw_call_log.py): participants and tenant from wazo-confd
-- (wazo_call_logd/participant.py), internal extensions, the voicemail, the recordings. Then the
-- call becomes a `CallLog` (wazo_call_logd/database/models.py). The purgers
-- (wazo_call_logd/purger.py) delete stored rows and files; `_StatisticsService`
-- (wazo_call_logd/plugins/support_center/services.py) cuts periods and waiting times in classes, for
-- which the two services beside it ask the queries of queue_stat.py and agent_stat.py
-- (wazo_call_logd/database/queries). The purgers read the days that `RetentionResource`
-- (wazo_call_logd/plugins/retention/http.py) writes.
-- `CallLogsManager` (wazo_call_logd/manager.py) chooses the CELs of a batch, and hands the call logs to
-- `CallLogsWriter` (wazo_call_logd/writer.py), which replaces those of the same CELs, and to the bus.
-- `CDRService` (wazo_call_logd/plugins/cdr/services.py) lists what is stored, and
-- `RecordingExportTask` (wazo_call_logd/plugins/cdr/celery_tasks.py) archives recordings.
--
-- The files, by the code they model:
--   Cel                 database/cel_event_type.py and the columns of a CEL
--   RawCallLog          raw_call_log.py; `filter_call` of extension_filter.py
--   ExtensionFilter     extension_filter.py
--   Participant         participant.py
--   CallLog             `to_call_log`, and the columns it fills in
--   Regex               the regular expressions of cel_interpretor.py and `re.match` on them
--   Interpretor.Extra   the parsers of cel_interpretor.py
--   Interpretor.Caller, Interpretor.UserEvents
--                       `CallerCELInterpretor`
--   Interpretor.Callee  `CalleeCELInterpretor`
--   Interpretor.Recordings
--                       what the interpretors do with recordings
--   Interpretor.Dispatch
--                       the event maps, `AbstractCELInterpretor`, `DispatchCELInterpretor`
--   Interpretor.LocalOriginate
--                       `LocalOriginateCELInterpretor`
--   Generator.Grouping  `_group_cels_by_shared_channels`
--   Generator.Participants
--                       `_ParticipantsProcessor`
--   Generator.Attributes
--                       `_remove_duplicate_participants`, `_ensure_tenant_uuid_is_set`,
--                       `_fill_extensions_from_participants`
--   Generator.Voicemail, Generator.Recordings
--                       the methods of these names
--   Generator.Batch     `from_cel`, `call_logs_from_cel`, `_get_interpretor`
--   Purger              purger.py
--   Purger.Removal      sync_db.py
--   Statistics          `_StatisticsService`
--   Statistics.Rows     the tables of the statistics, and `_add_interval_query`
--   Statistics.QueueRows
--                       database/queries/queue_stat.py
--   Statistics.AgentRows, Statistics.AgentQueues
--                       database/queries/agent_stat.py
--   Statistics.Service, Statistics.QueueService, Statistics.AgentService
--                       `QueueStatisticsService`, `AgentStatisticsService`
--   Retention           plugins/retention, database/queries/retention.py and config.py, and what
--                       controller.py writes at start-up
--   Cdr.Rows, Cdr.Filters, Cdr.Order, Cdr.Query
--                       the columns of models.py, and CallLogDAO of database/queries/call_log.py
--   Cdr.Status          the status of a call in plugins/cdr/schemas.py and in CallLogDAO
--   Cdr.Service         `CDRService`
--   Cdr.Service.Filename
--                       `Recording.filename` of models.py
--   Cdr.Http            plugins/cdr/http.py: the resources that list calls, and the one that asks
--                       for an export; `start_recording_export`
--   Cdr.OrderName       the orders that the request schema accepts, to the attribute of CallLog
--   Cdr.Csv             `_output_csv` of plugins/cdr/http.py
--   Cdr.Media           `RecordingService`, RecordingDAO, the resources of plugins/cdr/http.py for
--                       recordings media
--   Storage, Storage.Writer, Storage.Cels
--                       the tables that the daemon writes: the operations of CallLogDAO and
--                       TenantDAO that change them, writer.py, database/queries/cel.py, and what
--                       purges and deletions of tenants do to them
--   Manager             manager.py, `publish_call_log` of bus.py, main_sweep.py
--   Transcription, Transcription.Listing
--                       plugins/voicemail_transcription and its queries
--   Export              plugins/cdr/celery_tasks.py, plugins/export/http.py, ExportDAO
-- Their child modules hold the proofs. Common holds what the parts share, External what the program
-- calls and does not implement, Samples and Tests the inputs and runs of the tests.
--
-- State. A method that mutates a call is a function from the call to the call after it; one that
-- may raise gives a `Result`, with one constructor for each class of exceptions that a handler
-- catches. A statement of the originate interpretor gives an `Outcome`, because it may return the
-- call early. The voicemail cache outlives a call that fails, so it stands beside the result. A
-- dict is a list of pairs in the order of insertion, a set a list of its members.
--
-- The database. A table is a list of rows, in the order in which the database returns them where
-- nothing is asked; each part has the columns that it reads. A condition of SQL is true, false or
-- NULL, and selects the rows where it is true. LIKE, ILIKE, the order of texts and which texts a
-- column of uuids accepts are a parameter (`Database`), and so are the answers of the operating system about files (`Disk`, `Files`) and
-- what the database gives to a new transcription (`Server`). What wazo-auth tells of a token and its
-- tenants is the parameter `Token`, what zoneinfo and relativedelta tell of a datetime the parameter
-- `Zone`, Python's rounding of a quotient the parameter `Rounding`. The groups of GROUP BY come in
-- the order of the rows, where SQL leaves the order open. A transaction that fails leaves its
-- tables; those that ended before stay. Ids of call logs come from a sequence that grows.
--
-- Bounds and fuel. `finditer` of KEY_PAIR_KEY_REGEX runs on the length of the text, since each round
-- consumes a character. The loop of `_generate_subinterval` runs on the length of the period, since
-- each round moves the start up.
--
-- Assumptions. A CEL extra decodes to an object whose values are texts. Classes of characters in
-- the regular expressions are those of ASCII. wazo-confd gives the same answer to the same question
-- within a batch. The order in which Python walks a set is a parameter on which no law is imposed.
-- A datetime is a number of units on one clock; event times of one batch that mix datetimes and
-- texts raise, as in Python. A uuid of a request is written as the database writes it, or is
-- no uuid. A purge that raises is undone with its transaction, so its state is not given.
--
-- Not modelled: the HTTP resources, schemas and services of wazo_call_logd/plugins but for those
-- above, which marshmallow and Flask carry; and the process around them (bus, celery, configuration,
-- mail, authentication), which is input and output. Two sessions at one time are not modelled.
-- Logging is left out.
pub mod Common
pub mod Regex
pub mod Retention
pub mod External
pub mod Cel
pub mod ExtensionFilter
pub mod RawCallLog
pub mod Interpretor
pub mod Participant
pub mod CallLog
pub mod Generator
pub mod Purger
pub mod Cdr
pub mod Storage
pub mod Manager
pub mod Transcription
pub mod Export
pub mod Statistics
pub mod Samples
pub mod Tests
