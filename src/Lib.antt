-- ===== src/Lib.antt =====
-- Verification of the Aliyun log service SDK for Go: the parts that batch, send and retry logs
-- (producer/), that consume the shards of a logstore (consumer/), and the encoding of log groups
-- (log.pb.go).
--
-- The parts and how they interact. A user's goroutine calls a Send method of the producer, which
-- waits until the logs that are held take less memory than the limit, adjusts the shard hash, and
-- gives the logs to the log accumulator. It keeps one open batch for each key (project, logstore,
-- topic, shard hash and source). A full batch goes to the thread pool's queue; the mover sends
-- the batches whose linger time is over and the due ones of the retry queue there. The thread
-- pool starts a goroutine for each task, in which the io worker sends the batch and then calls
-- its callbacks or gives it to the retry queue. A consumer's worker runs, for each shard it
-- holds, a state machine that reads its checkpoint, pulls logs, has the user process them, and
-- shuts down, while the tracker saves the checkpoint.
--
-- The files.
--   Prelude      Booleans, lists, byte strings, and integers as ℤ over the native numbers
--   Map          Go maps as association lists, with the laws of lookup
--   Heap         container/heap, as far as producer/retry_queue.go uses it
--   LogPb            log.pb.go: the messages, Size, encodeVarintLog, the loop that reads a varint
--   LogPb/Wire       the pieces that the Unmarshal methods repeat, skipLog
--   LogPb/Marshal    the Marshal methods; LogPb/Unmarshal  the Unmarshal methods
--   Producer/Hash         producer/adjusthash.go
--   Producer/Config       producer/producer_config.go, validateProducerConfig of producer.go
--   Producer/Result       producer/result.go
--   Producer/Batch        producer/producer_batch.go, sizes of producer/utils.go
--   Producer/State        the structs of the producer's parts in one record
--   Producer/ThreadPool   producer/io_thread_pool.go: the queue
--   Producer/Accumulator  producer/log_accumulator.go
--   Producer/RetryQueue   producer/retry_queue.go
--   Producer/IoWorker     producer/io_worker.go
--   Producer/Mover        producer/mover.go
--   Producer/Send         producer/producer.go: the Send methods, waitTime, the closing signal
--   Producer/System       the goroutines of a running producer as a step relation: the mover, the
--                         loop of the thread pool, the workers, the Send methods, Close, SafeClose
--   Consumer/Config       consumer/config.go, the defaults of consumer_client.go
--   Consumer/Util         consumer/util.go: shard lists as sets
--   Consumer/Client       consumer/consumer_client.go: group, checkpoint and pull requests
--   Consumer/HeartBeat    consumer/heart_beat.go: rounds of the heartbeat
--   Consumer/Tracker      consumer/checkpoint_tracker.go, removeHeartShard of heart_beat.go
--   Consumer/ShardWorker  consumer/shard_worker.go: status, pacing, automatic commit
--   Consumer/Tasks        consumer/tasks.go, and consume of shard_worker.go
--   Consumer/Worker       consumer/worker.go: the shards' workers of one consumer
--   Client/Token          token_auto_update_client.go, IsTokenError of client.go
--   Client/Credentials    credentials.go, credentials_provider.go
--   Client/Retry          retry.go
--   Client/Signature      signature_v4.go: the headers that are signed
--
-- How state and operations correspond. A struct is a record with the struct's field names in
-- snake case; a method is a function from the state to the state; a pointer that may be nil is an
-- Option; a panic is none or a constructor of the result. A lock makes its method one step. The
-- clock, the server's answers, crypto/md5, math.Pow and the user's callbacks and processor are
-- arguments. Numbers are exact except where wrap-around matters: the retry wait is int64, and a
-- varint's value is below 2 ^ 64.
--
-- A running producer is a relation of steps. A step makes one access at most that a step of another
-- goroutine could see or come before: of a flag, the count of tasks, a place in the channel, the
-- thread pool's queue or the retry queue. The map is reached under its lock alone; where the mover
-- holds it over several steps, a call that needs it waits. So each of the three stores of
-- sendCloseProdcerSignal, each batch that the mover hands over, each callback, and the lines of
-- startSendTask and closeSendTask are steps of their own. A worker's errors are of the client's own
-- type there: another type panics. The wait of the Send methods for memory is not part of it.
--
-- Bounds and fuel. The loops of Unmarshal and skipLog read a byte or more in each round, so the
-- number of bytes is fuel enough. getRetryBatch runs at most as many rounds as the queue has
-- batches, and the drain is shown to need no more. Go's bits.Len64 has fuel 64 and a varint has
-- ten bytes at most, enough below 2 ^ 64. waitTime with a negative MaxBlockSec loops for ever:
-- the number of seconds looked at is an argument, and the answer says when they ran out.
--
-- Not modelled: the HTTP client and its requests (client*.go, log_project.go, log_store.go),
-- signatures but for the headers signed in version 4, the HTTP fetcher of credentials, the
-- bodies of the wrappers of token_auto_update_client.go, which repeat one loop, the models of
-- the service's resources, loggers, and the examples. Of the producer createClient, the time
-- limit of Close and the STS channel are left out; of log.pb.go the getters and SlsLogPackage,
-- which nothing else uses; of the consumer the constructors.
pub mod Prelude
pub mod Map
pub mod Heap
pub mod LogPb
pub mod Producer
pub mod Consumer
pub mod Client
