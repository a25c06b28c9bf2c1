-- ===== src/Lib.antt =====
-- Vivarium runs a development sandbox in a virtual machine on the host of its user. This library
-- models the parts of it that decide what crosses the boundary between the two, and proves what
-- they promise.
--
-- The parts, the files that model them, and how they interact:
--
-- - Protocol: the framed protocol between `viv` and the agent in the guest (src/protocol).
--   Protocol/Message.antt has the tags, the bounds and the messages of message.rs; the framing
--   of frame.rs (`read_raw`, `write_raw`) is in Protocol/Wire.antt, the frames of each direction in
--   Protocol/Frame.antt (`write_client_frame`, `read_client_frame`, `write_agent_frame`,
--   `read_agent_frame`). A stream that is read is the bytes that it delivers and how it goes on
--   behind them, a stream that is written is what it took and how much it still takes.
-- - Net: the egress boundary of the guest (src/net). Net/Allowlist.antt models allowlist.rs,
--   Net/Resolver.antt the gate of resolver.rs (`gate_query`) and the answer of its serve loop,
--   Net/Nft.antt the ruleset, the elements and the process of nft.rs, Net/Netns.antt the argument
--   lists of netns.rs and Net/Netns/Pair.antt its watch on the pair (on fuel: a turn for each five
--   milliseconds of the timeout, and two more). The gate asks the allowlist whether a name is permitted, asks the upstream,
--   hands the answered addresses to the programmer of nft.rs and only then releases the answer;
--   what it does outside itself is a log. Net/Text.antt has the text functions of the standard
--   library that these use, over bytes.
-- - Launch: the commands that the supervisor spawns (src/launch). Launch/Spec.antt has the launch
--   contract of spec.rs and command.rs. Launch/Checks.antt has the tests of single values of spec.rs
--   (`require_absolute_resolved`, `is_encoded_entry`, `guest_allowance`), Launch/Contract.antt and
--   its children `validate`, as the list of its checks in order, the first that fails being the
--   answer. Launch/Workspace.antt models workspace.rs: the paths of the guest, the pair rule and
--   `resolve`. Launch/Paths.antt compares paths part by part, as the standard library does.
--   Launch/Policy.antt models the profile of policy.rs, Launch/Policy/Check.antt its validation of
--   what was rendered. Launch/Mounts.antt models the declared mounts of mounts.rs: the expansion of
--   a source (on fuel, as much as its text is long), its classification against the filesystem, which
--   is a parameter, and the encoding of an entry.
-- - Agent: the agent in the guest (src/bin/vivarium-guest-agent/control.rs). Agent/Control.antt
--   models one connection of `handle` over the frames of Protocol, Agent/Sessions.antt the count that
--   all connections share, with the steps of each behind its `Start` in any order, Agent/Trim.antt the exchange of `run_trim` with the
--   root-owned unit. The loop of `handle` runs on fuel: two turns are enough, since only a first
--   resize goes on.
-- - Config: the state on the host (src/config). Config/Generations.antt models the profile of
--   retained builds of generations.rs over the files that it keeps, Config/Timestamps.antt the instants
--   of its records, and Config/Files.antt the
--   directories and ordered sets that it needs.
-- - Config/Volumes.antt models what volumes.rs remembers of declared volumes, and its reading.
-- - Cli: the decisions of the commands (src/cli/trim.rs in Cli/Trim.antt: the target of a memory trim
--   and what the balloon is asked for; src/exit.rs in Cli/Exit.antt; src/cli/grammar.rs in
--   Cli/Grammar.antt, the global flags, and Cli/Grammar/Verbs.antt, the verbs;
--   `select`, the prune and the switch of src/cli/generations.rs over the profile of
--   Config/Generations.antt in Cli/Generations.antt).
-- - Prelude has the names that all share; Tests has concrete runs.
--
-- Parameters stand for code that is not of this repository: the JSON texts of serde_json
-- (`Json`, with `JsonLaws`: what is rendered parses back), the messages of hickory_proto (`Dns`,
-- with `DnsLaws`: an encoded message parses back with its code, where that is one of the five that
-- the resolver answers with), the address parsers of ipnet
-- (`Addresses`), the `nft` process (`Host`), nftables itself (`Nftables`, with `NftablesLaws`: rules
-- are read in order and the first with a verdict decides), the files of the host (`Filesystem`,
-- `Disk`, `HostDisk`) and the decimal text of a number. The upstream exchange of the resolver, the run of a
-- session and the reading of /proc/meminfo are given by their outcome.
--
-- Numbers are natural numbers; where the source has a machine integer the guards that keep it in
-- range are in the model (a frame's length is tested against 2 ^ 32, the count of sessions and
-- the next number of a generation wrap at 2 ^ 64). A path is its bytes: a contract is read from JSON,
-- so the lossy `display` of a path in an argument is the path. But for the loops above every function is structurally recursive.
--
-- Not modelled: scheduling other than the order of the sessions' steps, timeouts and the sockets
-- themselves; the rendering of the nftables schema to JSON; the sub-commands of the program; the
-- rest of the configuration; the supervisor's life cycle; what a session does once it runs.
pub mod Prelude
pub mod Protocol
pub mod Net
pub mod Launch
pub mod Agent
pub mod Config
pub mod Cli
pub mod Tests
