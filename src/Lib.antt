-- ===== src/Lib.antt =====
-- FlexBSO: block storage on a DPU through SPDK. This library models the RAID bdev module under raid/ and the
-- compressing passthru bdev under bdev-passthru-compress/, whose parts are:
--   * raid/bdev_raid.h and raid/bdev_raid.c: the RAID bdev, its base bdevs and its requests; RaidBdev.antt
--     has the structures as records, and the functions by which a request is completed, in parts
--     (raid_bdev_io_complete_part) or at once. Bdev.antt has what the modules see of SPDK's block layer.
--   * the loop by which a request is split over the base bdevs. It stands in raid/raid0.c, raid/raid1.c and
--     raid/bdev_raid.c alike, and is Fanout.antt (submit_slots). Fanout/Accounting.antt has the invariant of
--     its counters, Fanout/Life.antt the life of a request as a relation: submissions, waits for memory,
--     retries, and ends of children in any order; Fanout/Sent.antt the children of chosen base bdevs in the
--     order they are sent; Fanout/Handler.antt what a level has to show (Serves).
--   * raid/raid0.c: Raid0.antt. Raid0/Geometry.antt is the layout as plain arithmetic, Raid0/ReadWrite.antt
--     reads and writes, Raid0/Strips.antt, Raid0/Pieces.antt and Raid0/Split.antt the split of a range,
--     Raid0/NullPayload.antt unmaps and flushes, Raid0/Start.antt the sizes at the start.
--   * raid/raid1.c: Raid1.antt. Raid1/Mirror.antt is the mirrored write, Raid1/ReadBalance.antt the choice of
--     a base bdev for a read, Raid1/Reads.antt the reads of a channel, and Raid1/Counters.antt
--     its counters of outstanding blocks.
--   * raid/raid5f.c: Raid5f.antt. Raid5f/Chunks.antt is the placement of data and parity, Raid5f/Start.antt
--     the sizes, Raid5f/Read.antt the place of a read; Raid5f/Slots.antt, Raid5f/Flips.antt and
--     Raid5f/Write.antt are a full-stripe write from the end of the parity computation on.
--     Raid5f/Iovecs.antt is raid5f_stripe_request_map_iovecs, which cuts the buffers of a write into chunks,
--     Raid5f/Cut.antt, Raid5f/Fill.antt and Raid5f/Mapped.antt what the cut covers. Raid5f/Alloc.antt is the
--     allocation of stripe requests and of channels, Raid5f/Memory.antt, Raid5f/Allocated.antt and
--     Raid5f/Channel.antt the balance of their blocks, Raid5f/Refused.antt and Raid5f/Ended.antt which
--     refusal makes them fail. Raid5f/Xor.antt is the XOR of a stripe request by jobs
--     of the accel framework, with Raid5f/XorBalance.antt and Raid5f/XorLife.antt on its jobs and retries;
--     Raid5f/Requests.antt is raid5f_submit_rw_request and what it calls, with Raid5f/Dispatch.antt on where
--     a request goes.
--   * raid/bdev_raid.c: BdevRaid.antt hands a request to its level, and BdevRaid/Reset.antt is a reset.
--     BaseBdevs.antt is the creation and configuration of a RAID bdev, BaseBdevs/Removal.antt the removal
--     of base bdevs and the deletion; BaseBdevs/Counted.antt, BaseBdevs/Configured.antt and
--     BaseBdevs/Reached.antt are the counter of open base bdevs, BaseBdevs/Levels.antt what a level asks
--     for, BaseBdevs/Creation.antt what is created.
--   * raid/concat.c: Concat.antt. Concat/Layout.antt is the layout, Concat/Start.antt its computation,
--     Concat/ReadWrite.antt reads and writes, Concat/Extent.antt and Concat/Pieces.antt the two loops over a
--     range, Concat/Slots.antt and Concat/NullPayload.antt unmaps and flushes.
--   * bdev-passthru-compress/compress/compression_local_core.c: Compression.antt has the error codes, the
--     calls of the DOCA SDK and the size of a destination. Compression/Job.antt is process_job to
--     compress_file_hw, Compression/Zlib.antt the software streams and the checksum, Compression/File.antt
--     compress_file, the files and the two programs' bodies, Compression/Session.antt the opening and closing
--     of the engine; Compression/Balance.antt and Compression/Outcome.antt how jobs and runs end.
--   * bdev-passthru-compress/passthru/vbdev_passthru.c: Passthru.antt. Passthru/Buffers.antt is how a
--     request's buffers are gathered, filled and trimmed, with Passthru/Padding.antt and
--     Passthru/Trim.antt on what they then hold; Passthru/Request.antt is a request from
--     vbdev_passthru_submit_request to _pt_complete_io (pt_complete_io), which calls compress_file;
--     Passthru/RoundTrip.antt, Passthru/Life.antt and Passthru/Retry.antt are about it.
--     Passthru/Registry.antt is the lists of names and bdevs, Passthru/Registered.antt an attempt to attach,
--     Passthru/Reached.antt the lists after any sequence of entry points, with the descriptors that are
--     closed by a message to another thread.
--
-- A module is a set of callbacks on a RAID bdev: the block layer calls its submit function with a new
-- request; the function sends child requests to base bdevs; each child's end calls a completion
-- function. In the model a submit function takes the request's state (RaidBdevIo) and `answer`, the
-- return code of the layer below for each child, and gives the new state, which records the children
-- sent, the base bdev that a queued retry waits for, and the statuses that the request was completed
-- with. Theorems hold for every `answer`, at each retry another one.
--
-- What is not under raid/ and bdev-passthru-compress/ is a parameter of the definitions: the DOCA SDK (Doca,
-- Opening), zlib (Zlib), the file system (Files), and for the passthru bdev what SPDK answers to each
-- registration (Layer). process_job polls the engine until it answers; its loop takes the number of polls
-- that are allowed as fuel, the result `none` stands for an engine that has not answered by then, and the
-- theorems on it allow more polls than the engine needs.
--
-- Numbers are the native ones; what the source keeps in uint64_t, uint32_t and uint8_t has its
-- wrap-around written out (Common/Words.antt). Loops are by recursion on the number of turns left,
-- which starts at the source's own bound, so that none of them runs out. In raid/raid5f.c the products and shifts
-- that the source makes in 32 bits or in an int are made so, and the theorems suppose that they fit where it matters.
-- Two things that are undefined in the source are told apart: an input file that cannot be read gives no result
-- (`none`), and the free of an array on the stack by compress_file_hw, when the file compress_size cannot be written,
-- is counted (`bad_frees`) and the model goes on. `assert` is compiled out; a request
-- that the source excludes by an assertion changes nothing in the model.
--
-- Not modelled: of raid/raid5f.c the bytes that are XORed, the end of a reconstruction and the retry queue over
-- several requests (a retry is a step of the request that is retried); of raid/bdev_raid.c the channels, the
-- names of levels and states, and the list of all RAID bdevs; the RPC files
-- (raid/bdev_raid_rpc.c, bdev-passthru-compress/passthru/vbdev_passthru_rpc.c), which decode JSON; the
-- compression programs and the hello program; memory domains and metadata buffers, which the modelled code
-- only passes on; the log. In raid/raid1.c the creation of channels is left out, and its counters are taken
-- as they are after it. In the passthru bdev, do_compress is always true and match_checksum always false, so
-- that their tests are left out; a copy of more bytes than a buffer has room for is cut off at its end,
-- where the source writes on behind it; a length that compress_file does not set is an arbitrary number
-- (`unset`); buffers do not overlap; bdev names, which are only compared, are numbers.
pub mod Common
pub mod Bdev
pub mod RaidBdev
pub mod Fanout
pub mod Raid0
pub mod Raid1
pub mod Concat
pub mod Raid5f
pub mod BdevRaid
pub mod BaseBdevs
pub mod Compression
pub mod Passthru
