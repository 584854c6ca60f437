-- ===== src/Lib.antt =====
-- The Nanometrics protocol library of this repository (lib/ and include/): a client of a NaqsServer or
-- DataServer asks for channels, receives packets of seismic samples over a socket, decodes them and hands
-- them, in the order of their sequence numbers, to the callbacks of the tool.
--
-- A session (Session) logs in with a checksum (Crc) and asks for the channels and their times. A message comes
-- through Transport; Request takes data messages apart with Decode, which looks the
-- channel up in a list of Chan and unpacks the samples with Bundle; the packet, a record of Packet, goes
-- to the queue of RawStream. The tool keeps the time of the last sample of each channel in a file (ChanSeq, with
-- Date).
--
-- - Prelude: lists, options and integers over the native numbers, and rulesets. Text: C strings and the
--   calls of the C library on them. Word: bytes, byte orders and int32_t sums. Double: the type double as
--   a parameter, with an instance of whole numbers for the examples.
-- - Packet: NMXP_DATA_PROCESS of include/nmxp_data.h, nmxp_data_init and nmxp_data_latency; Packet.Trim is
--   nmxp_data_trim (lib/nmxp_data.c).
-- - Bundle: nmxp_data_unpack_bundle (lib/nmxp_data.c); Bundle.Encode has a packer, which the repository
--   does not have, for the round trips.
-- - Decode: nmxp_processCompressedData and nmxp_processDecompressedData (lib/nmxp_base.c), with the loop over
--   the bundles in Decode.Bundles. Both byte orders of the host are modelled.
-- - Transport: nmxp_send_ctrl and nmxp_recv_ctrl, and in Transport.Message the four functions that send and
--   receive headers and messages (lib/nmxp_base.c). The socket is a parameter, with the contract of recv() and
--   the order of a stream as named hypotheses.
--   Transport.Duplex adds what the client has sent.
-- - Request: the requests and nmxp_receiveData of lib/nmxp.c; Request.Pace is nmxp_sendAddTimeSeriesChannel with
--   its static variables, which asks for the channels in batches.
-- - Session: the sessions of lib/nmxp.c. Session.Ready is nmxp_readConnectionTime and nmxp_waitReady, Session.Lists
--   the structures that a server sends, Session.Available nmxp_receiveChannelList and
--   nmxp_getAvailableChannelList, Session.Login nmxp_sendConnectRequest, nmxp_sendDataRequest and
--   nmxp_sendRequestPending, Session.Dialog the loop that receives until a Ready message, and Session.Metas
--   nmxp_getMetaChannelList. What nmxp_openSocket returns is a parameter.
-- - Crc: lib/nmxp_crc32.c; Crc.Bitwise is the checksum without a table.
-- - Date: the calendar of lib/nmxp_data.c. Date.Parse is nmxp_data_parse_date, a state machine, Date.Strtol the
--   strtol() that it calls, Date.Months its loop over the months, and Date.Print nmxp_data_to_str. gmtime_r(),
--   timegm(), the state of errno and the bytes of arrays that are not written first are parameters.
-- - RawStream: nmxp_raw_stream_init and nmxp_raw_stream_manage (lib/nmxp.c), the queue of packets of a
--   channel; qsort() is a parameter that sorts by nmxp_raw_stream_seq_no_compare, and the callbacks are functions on a state.
-- - ChanSeq: the entry that the tool keeps for each channel, and its test for gaps; ChanSeq.States has the text
--   of the file of channel states, which is saved and loaded (src/nmxptool_chanseq.c).
-- - Seed: the table of the open miniSEED files, nmxp_data_seed_fopen and its companions (lib/nmxp_data.c).
--   The file system is a parameter, with the contract of fopen() and fclose() in Seed.Disk.
-- - Chan: lib/nmxp_chan.c: Chan.Name takes names apart, Chan.Match matches patterns, Chan.Lookup and
--   Chan.Subset search and select channels, Chan.Meta is the linked list of channels with their times.
--
-- Out-of-bounds accesses, reads through null pointers and calls of exit() are values of the results.
-- Numbers of sequence and time are integers without overflow; samples wrap around at 32 bits. Fuel: the loop
-- of nmxp_recv_ctrl has a round for each byte asked for, the loop over the bundles one for each byte, the parser of
-- dates eight rounds, of which seven are enough, and the loop over the lines of a file one for each byte. The loop of
-- nmxp_waitReady has the eleven rounds after which its counter stops it. The messages after a request are bounded
-- by an argument: more rounds than answers are enough.
--
-- Not modelled: logging and printing, memory release and its tracking, the packing of miniSEED records by libmseed,
-- opening and closing of sockets, the files of channel states as such, the command line tool, and the bindings to
-- Earthworm, SeedLink and Windows; these are output, calls of the system or left for later.
pub mod Prelude
pub mod Text
pub mod Crc
pub mod Double
pub mod Word
pub mod Packet
pub mod Bundle
pub mod Date
pub mod Chan
pub mod Decode
pub mod Transport
pub mod Request
pub mod Session
pub mod RawStream
pub mod ChanSeq
pub mod Seed
