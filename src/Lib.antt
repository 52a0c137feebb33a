-- ===== src/Lib.antt =====
-- The video encoder service: a server that takes jobs over HTTP, encodes each video into HLS
-- qualities with ffmpeg, and keeps the jobs in memory and the progress of each on disk, so that an
-- attempt that fails can be resumed.
--
-- Prelude has what the parts share: Boolean tests, lists and strings over the native numbers,
-- dictionaries, and, in Prelude/Decimal, a reader of printed numbers. Types models pkg/types (Job,
-- State, Retry, Encoding) and, in Types/Error, Go's errors and stateful calls that return a value
-- or an error, or panic.
--
-- Jobs models internal/infrastructure/filesystem/repository.go (Jobs/Repository) and
-- internal/application/services/job_service.go (Jobs/Service). A job is a cell of a heap, since
-- the services share pointers to it, and the repository maps IDs to pointers. Jobs/View is the
-- table of jobs that clients see and the specification of each method, Jobs/Valid and Jobs/Refines
-- relate the two, and Jobs/History and Jobs/Timing are about sequences of calls.
--
-- Transcode models internal/application/usecases/transcode_usecase.go: Execute, process,
-- getOrCreateState, handleError (Transcode/Execute), executeSteps and stepFinalization
-- (Transcode/Finish), the other steps (Transcode/Steps), encodeWithResume and encodeSeparateAV
-- (Transcode/Qualities, with EncodeSeparateAV of separate_av_encoder.go), extractErrorCode
-- (Transcode/Errors) and checkJobDiskLimit (Transcode/Limits). Below it stand
-- internal/application/services/state_service.go (Transcode/Store), the size limits of
-- disk_service.go (Transcode/Limits), MoveToDLQ of dlq_service.go (Transcode/Execute), and
-- SelectVariants and EncodeQuality of internal/infrastructure/ffmpeg (Transcode/Encoder).
-- Transcode/World has the state: the jobs, the state files with their temporary files, the state
-- in hand, the deduplication map, the dead letter queue and a log of visible acts. The operating
-- system, ffmpeg and ffprobe are an arbitrary function from the number of a call to its answer, so
-- that every pattern of failures is covered. Transcode/Keeps and Transcode/Yields have the rules
-- for calls, Transcode/Framed and Transcode/Safe* apply them to each call, and Transcode/Settled,
-- Finished, Attempt, GiveUp, Gate and Attempts follow a job to its end. Transcode/Once, with
-- Steady and Completed, is about the qualities that an earlier attempt has completed, and
-- Transcode/Whole, with Lost and Found, about those that an attempt leaves. Transcode/Beside is
-- process as a step relation, with the three goroutines beside it and the channels that stop them,
-- and Transcode/Returns is about how process can end.
--
-- Ffmpeg models internal/infrastructure/ffmpeg at the level of its commands. Ffmpeg/Shell has the
-- state, which is the commands run and the files written, and the answers of the programs and of
-- the file system as functions of the number of a call. Ffmpeg/Probe is probe.go, Ffmpeg/Arguments
-- the argument lists of encoder.go and quality_encoder.go, Ffmpeg/Playlist GenerateMasterPlaylist
-- of encoder.go, Ffmpeg/Quality EncodeQuality of quality_encoder.go with pkg/utils/watchdog.go,
-- and Ffmpeg/Hls the rest of encoder.go. Ffmpeg/Audio is audio_processor.go, audio_normalizer.go
-- and video_only_encoder.go, Ffmpeg/Separate master_playlist.go and EncodeSeparateAV of
-- internal/application/usecases/separate_av_encoder.go, Ffmpeg/Previews preview_generator.go and
-- Ffmpeg/UsePreviews generatePreviews of the use case. Ffmpeg/Reader is a reader of master
-- playlists, independent of the code that writes them, which Ffmpeg/Written and Separated use;
-- Ffmpeg/Calm shows that calls do not panic, and Looped, Tallied, Listed and Thumbnails are about
-- the encoders and the thumbnails. Runs has results on small inputs. Durations are in
-- microseconds, where the source has floating-point seconds.
--
-- Metrics models internal/application/services/metrics_service.go (Metrics/Service; Peaks is about
-- histories of calls and Reloaded about the files), and Delivery
-- internal/application/services/cdn_service.go (Delivery/Cdn) and
-- internal/infrastructure/storage/storage.go (Delivery/Storage), whose providers and adapters are
-- placeholders that make no calls.
--
-- Server models the running service. Server/State is what its parts share: the world of Transcode,
-- the job queue as a list of pointers, the schedule, the pending timers and the batches.
-- Server/Handlers and Server/Batching are the handlers of internal/api/handlers/job_handler.go,
-- Server/Scheduler is internal/application/services/scheduler_service.go, Server/Recovery is
-- resumeOrphanedJobs of cmd/api/main.go, and Server/Steps puts requests, timers, workers and the
-- calls of their runs into one step relation. Server/Sound has the invariant, Server/Rules,
-- Serves, Answers, BatchRules and BatchAnswers show that each call keeps it, with the triples of
-- Types/Triple; Server/Creation, Resumption and Roundtrip are about handlers, and Server/Calls,
-- Armed, Cancelled and Arrives about the scheduler.
--
-- Validator models internal/infrastructure/filesystem/validator.go, Cleanup the automatic cleanup
-- of internal/application/services/disk_service.go (Cleanup/Service; Order is about sort.Slice,
-- which is a parameter), DeadLetters internal/application/services/dlq_service.go but for
-- MoveToDLQ, and Webhook the retries of internal/application/services/webhook_service.go. Sockets
-- models the registry of internal/infrastructure/websocket/manager.go. Samples has data for the
-- tests.
--
-- Batches models internal/application/services/batch_service.go, Rate the token buckets and the
-- endpoint limiter of internal/api/middleware/rate_limiter.go, and Dedup the map and the file of
-- internal/infrastructure/cache/deduplication.go.
--
-- Fuel: only the printing of a decimal number runs on fuel, one unit for each unit of the number
-- and one more; the loop of Execute recurses on the rounds that are left, maxRetries + 1.
--
-- In Transcode a run of Execute is one sequence of calls, and in Server the calls of the
-- JobService that runs make come between the other steps in any order; a handler is one step. A
-- send on the job channel waits while the channel is full, and is not cut short.
--
-- Transcode has EncodeQuality and EncodeSeparateAV with the success or failure of their programs
-- alone, and Ffmpeg has them in full; Execute in Transcode is without the goroutines that
-- Transcode/Beside has.
--
-- Not modelled: the marshalling of JSON, in whose place files hold values that are read back as
-- they were written, and whose reading of ffprobe's report is a parameter like fmt.Sscanf on its
-- output; the handlers GetDetailedVideoInfo and HandleWebSocket; the encoding of HTTP requests and
-- responses; the messages of WebSocket connections, which go through a third-party library; the
-- payloads of webhooks; the priority queue of pkg/types/priority_queue.go, which nothing uses;
-- copyFile of storage.go, which nothing calls. The clock is in nanoseconds and does not run
-- backwards.
pub mod Prelude
pub mod Types
pub mod Jobs
pub mod Transcode
pub mod Batches
pub mod Rate
pub mod Validator
pub mod Server
pub mod Cleanup
pub mod Ffmpeg
pub mod Metrics
pub mod Delivery
pub mod Webhook
pub mod DeadLetters
pub mod Sockets
pub mod Dedup
mod Samples
