-- ===== src/Lib.antt =====
-- A model of the test harness that runs the network programs of this repository without the hardware
-- (tools/exe-harness, JavaScript). The programs under test are Z80 executables; the harness gives them
-- a CPU, the DSS services, a network card and protocol peers. The parts:
--   * the card (tools/exe-harness/rtl8019-model.js): the RTL8019AS/DP8390 controller as the driver
--     sees it through its 32 ports: the register file, the remote DMA port with 16 KB of packet RAM
--     behind it, the transmitter, the receive ring, the events that the clock delivers, and the bus
--     faults that a scenario injects. This is the directory Nic, the class `Rtl8019`;
--   * the peers (tools/exe-harness/net-builders.js): pure builders and parsers of frames, and the
--     responders that the card calls with each frame that it transmits (its `onTransmit` hook) and
--     that answer through `schedule`. This is the directory Frames;
--   * the responders with a state of their own and the dispatcher `respond` of net-builders.js, which is
--     the card's `onTransmit` in a scenario with responders. This is the directory Peers;
--   * the machine around the CPU (tools/exe-harness/harness.js): paged memory, the window to the ISA
--     bus in which the card answers, the ports that switch them, the loading of an EXE file and its
--     command line, and the memory blocks of the DSS. This is the directory Harness.
--     Of the run loop only the clock (`advanceWireMs`) is here, as `advance_wire_ms` of Nic/Clock.
--
-- Nic/Types has the state: `Card` holds every field of the object that its methods change, and `Env`
-- what the constructor fixes. One function stands for each method, with the state passed through and a
-- throw as a `Fault`: Nic/Prom (`buildProm`), Nic/Build (the constructor), Nic/Clock (`schedule`,
-- `scheduleCallback`, `pumpScheduled`), Nic/Control (the reset port and `writeCr`), Nic/Dma (`readData`,
-- `writeData`, `ramReadNic`), Nic/Receive (`accepts`, `deliverFrame`, `ramWriteNic`), Nic/Transmit
-- (`doTransmit`), Nic/Faults (`_busMissed` and the other injected faults), Nic/Regs (`readReg`,
-- `writeReg`). Nic/Run is not code of the repository: it runs a list of bus cycles, as a driver makes
-- them. The modules below a component hold its proofs.
--
-- A frame that a program transmits goes from the port writes of the CPU (Harness/Ports, Harness/Memory)
-- to the registers of the card (Nic/Regs), out of packet RAM (Nic/Transmit) to `respond`
-- (Peers/Dispatch); the answers are scheduled and come back through Nic/Clock and Nic/Receive. To send
-- a frame is to note it in `generated` and to schedule it: `IsSent` of Nic/Clock/Sent says both.
--
-- Numbers are natural numbers with the source's masks written out; a byte array is a list, packet RAM a
-- function from its index. The peers' own state is a parameter `P` of the card and the hook a field of
-- `Env`, so that what is shown of the card holds for any peer that meets the named hypothesis. A timer
-- of a peer is a value of a parameter `T`, and `Env` says what it does when it fires. `pumpScheduled`
-- keeps the bound of 64 rounds that it has in the source; when only frames are pending, one round is
-- enough, since a frame schedules nothing. All other loops are structural recursion.
--
-- Of the peers: Frames/Checksum (`checksum`, `putChecksum`, `padTo60`), Frames/Arp (`isArpRequest`,
-- `buildArpReply`, `buildArpRequest`), Frames/Icmp (`icmpEchoRequest`, `buildIcmpReply`,
-- `buildIcmpUnreachable`), Frames/Udp (`udpDatagram`, `buildUdpReply`), Frames/Dns (`parseDnsQuery`,
-- `buildDnsResponse`), Frames/Ntp (`buildNtpResponse`), Frames/Dhcp (`parseDhcpOptions`,
-- `isDhcpMessage`, `dhcpMsgType`, `buildDhcpReply`), Frames/Tftp (`tftpReadCString`, `respondTftp`, with
-- the responder's object as a record that each call returns changed), Frames/Tcp (`readU32BE`,
-- `parseTcpSegment`, `buildTcpSegment`). `null` and a missing option are `none`. The
-- loops that parse a payload run on fuel, its length, and each round moves forward; the decimal digits
-- of a number are fewer than the number plus two. Where
-- `parseDnsQuery` would loop for ever, past the end of a query, the model returns `none`. The time that
-- `buildNtpResponse` takes from the host by default is an argument.
--
-- Of the responders: Peers/Session (the session object and the options of the senders), Peers/Store
-- (`_sessions`), Peers/Http (`buildHttpResponse`), Peers/Chunks (`tcpSendNextChunk`), Peers/Reliable
-- (`tcpReliableNext`), Peers/Stream (`tcpStreamAhead`, `streamEmit`, `armRto`), Peers/Tcp and
-- Peers/Tcp/Respond (`respondTcp`), Peers/Ftp and Peers/Ftp/Respond (`ftpReply`, `ftpStartData`,
-- `respondFtp`), Peers/Responders and Peers/Dispatch (`respond`). A session object is a record with a
-- serial number for its identity, since a timer and `_dataSession` keep an object that a later SYN may
-- have replaced; the store holds them all. A callback of `armRto` is the record of what it has
-- captured, and what it does is `rto_expired`. The loop of `streamEmit` runs on the rounds that `maxBurst`
-- allows, the loop over the lines of an FTP command on the length of the text, of which each line takes
-- two codes or more. Where `parseDnsQuery` would loop for ever, `respond` returns a fault.
--
-- Of the machine: Harness/Memory (`mem`, `win`, `lin`, `rd`, `wr`, `cstr`, `writeCstr`) and
-- Harness/Ports (`io_read`, `io_write`, and what the CPU may do on its bus as the relation `Step`).
-- The string reader keeps its bound of 0x4000 rounds. Harness/Loader has the checks of the EXE
-- header, the loading and the command line (`parse_exe`, `load_image`, `set_command_line`),
-- Harness/Blocks the calls GETMEM, FREEMEM and SETWIN with `blockPage` (`get_mem`, `free_mem`,
-- `set_win`, `block_page`). An index that JavaScript would find outside of an array is read as 0
-- where the source stores it into a byte array.
--
-- Not modelled: the Z80 CPU (tools/exe-harness/Z80core.js, a copy of another project's emulator),
-- whose accesses are arguments; the other DSS services and the run loop of harness.js, the CRC and
-- the assertions of test-util.js, the command lines (run.js, unet-probe.js) and the test suites; of
-- the repository outside tools/exe-harness, the assembly sources. The text of an exception is only
-- its kind and the numbers it names, and files and consoles are not here.
pub mod Base
pub mod Frames
pub mod Harness
pub mod Nic
pub mod Peers
