-- ===== src/Lib.antt =====
-- go-iec61850: an IEC 61850 stack in Go, from the byte stream up to the server of a data model.
-- This library models the parts named below and proves what makes them correct.
--
-- asn1/ (Asn1): BER. A Tag and the octets of a tag, a length and an element (Asn1, for asn1/ber.go);
--   Decoder is the cursor of asn1/decoder.go, with the offset and the octets that are left, and each
--   of its methods returns a result and the next cursor (Asn1/Decoder). Element is the tree of
--   asn1/element.go (Asn1/Element), Oid the object identifiers of asn1/oid.go, and Primitives the
--   integers, booleans and bit strings of asn1/primitives.go, Span the elements with their octets of
--   asn1/span.go. The other modules are proofs: Base128, Tags, Lengths
--   and Tlv read back what is written, Bounds follows the cursor, Fuel shows that the decoder ends.
-- internal/osi/tpkt (Transport/Tpkt): the frames of RFC 1006 on a Stream, which holds the octets still
--   to come from the peer, those written, and how many more writes succeed.
-- internal/osi/cotp (Transport/Cotp): the connection of cotp.go, with Send and Receive, and the
--   handshake of Connect (cotp.go) and Accept (accept.go) in Transport/Cotp/Handshake. Segments and
--   Reassembly, Parameters, Ends and Agreement are their proofs.
-- server/select.go (Server/Select): the reservations of control objects, a map from references to
--   Selections. Exclusion says whom a reservation admits, Origin where reservations come from.
-- goose/publisher.go (Goose/Publisher): the publisher and its goroutines, each a Loop that `round` takes
--   through one retransmission. goose/subscriber.go (Goose/Subscriber): the checks on each message and
--   the timers. Stream and Sending follow the messages of a publisher to a subscription, Supervision is
--   about what is superseded. `Message.Marshal` is an argument, and the subscriber starts from the
--   message that `Parse` has returned.
--
-- Mms: the values of mms/value.go, Mms/Codec their encoding (mms/value_codec.go: data_element is
-- DataElement, decode_data DecodeData), Mms/Time the times of UtcTime and TimeOfDay, Mms/BitStrings Bit
-- and SetBit. Go's conversions between the two widths of floats are a parameter (Floats). decode_data
-- goes 33 levels deep, as the source's test of the depth allows, and each loop over children gets one
-- more round than there are octets.
--
-- Rsession: the session protocol of routable GOOSE. Rsession/Keys the keys and their store (keys.go),
-- Rsession/Spdu the SPDU and Marshal, Rsession/Spdu/Reading Unmarshal (spdu.go), Rsession/Replay the
-- window of numbers (replay.go), Rsession/Session what a session does with a datagram (session.go).
-- The hashes and the cipher are a parameter (Crypto), whose laws are their lengths and that Open takes
-- Seal back; the library's panic on a vector of the wrong length is an error of its own. A session
-- calls Unmarshal with the keys of its store, then the window of the stream that the datagram belongs to.
--
-- Goose/Wire: Marshal and Parse of goose/message.go over Asn1 and Mms; the publisher's marshal can be
-- this one. Goose/Wire/Fields reads the elements of the PDU one by one.
--
-- Server/SettingGroups: the setting groups of server/settinggroup.go (new_sg_manager is newSGManager,
-- check_write is checkWrite, on_sgcb_write is onSGCBWrite), Server/SettingGroups/Writes the writes of
-- server/handler.go that reach them, Server/SettingGroups/Build the loop's body of buildSettingGroups in
-- server/server.go. Attributes are their values; the pairs of SG and SE attributes are an argument.
-- Served, Valid, Start and Editing are proofs.
--
-- Model/Flags: the flags of model/quality.go and their bit strings.
--
-- Server/Reporting: the report control blocks of server/reporting.go and server/rcb.go. An Rcb is an
-- rcbState with the attributes of its data object. Pdus builds the reports (report_pdus is reportPDUs)
-- and Pdus/Segments is about its segments; Sending takes events to the buffer and to the client (event,
-- emit, transmit are eventLocked, emitLocked, transmitLocked), Holding is the reservation, Writes the
-- writes of attributes (check_rcb_write, on_rcb_write, enable, disable), Blocks the new blocks. Buffer,
-- Delivered, Delivery, Frame and Windows are proofs about events, Holder, Runs, Keeping, Resync and
-- DataSet about writes. Each
-- transmission takes outcomes of SendUnconfirmed from a list, so that any of them may fail. The loop
-- that discards entries gets one round more than there are entries, and that over segments as many as
-- there are members: each takes one.
--
-- Server/Control: the controls of server/control.go (control_write is controlWrite, split_control and
-- control_ref are splitControl and controlRef). Values is decode_oper and value_fits (decodeOper,
-- valueFits of server/handler.go), Termination the messages and the CommandTermination (finish,
-- supervise), Commands what a command ends in, Writes the write of a control structure from its item to
-- its answer, on the reservations of Server/Select. What a command sends and records is a list of effects, in order; a handler is a function
-- that says its cause, whether it defers the termination and what it finishes at once, and calls and
-- timeouts after the answer are a list. Safety, Selected, Counting, Ends and Bypass are proofs.
-- Base: tests on numbers, lists, results, masks and maps that the components share.
--
-- Octets are numbers below 256, machine words are numbers with their wrap-around written out, a
-- string is its octets, and a nil slice is none where the code tells it from an empty one. An int64
-- is its 64 bits. Messages of errors are not modelled, only which error it is.
--
-- Loops run on fuel, and out_of_fuel is no error of the source. The decoder's recursion gets one more
-- than the octets that are left: each element takes two octets at least. Send gets one more than the
-- length of the TSDU: each segment takes one octet at least; Receive one more than the octets of the
-- input: each TPDU takes four at least. The loops over the parameters of a TPDU get its length.
--
-- Not modelled: the layers between transport and MMS (session, presentation, ACSE and their security),
-- the PDUs and the connections of MMS, the sockets of a routable session, the server's and the client's other
-- services, sampled values, SCL, and the code that only drives a network card, a clock or a library.
pub mod Base
pub mod Asn1
pub mod Transport
pub mod Rsession
pub mod Server
pub mod Goose
pub mod Mms
pub mod Model
