-- ===== src/Lib.antt =====
-- hopdns: a DNS server that answers for the jobs of clusters. Watchers follow one peer each and send
-- images of its cluster to the cache; the server answers datagrams from the cache and from a table of
-- static CNAMEs.
--
-- Parts, and the files that model them:
--   Table         src/table.rs    the sorted map with search by halving
--     Table.Search, Table.Rows, Table.Places, Table.Laws, Table.Has: its laws as a map
--   Cache         src/cache.rs    clusters, their jobs, the addresses of a job
--     Cache.Laws, Cache.Merged, Cache.Fresh: what each operation changes; the union over clusters
--   Wire          src/wire.rs     numbers, words, flags
--     Wire.Names (names), Wire.Query (`parse_query`, `encode_query`), Wire.Reply (`Reply`)
--     Wire.Reply.Shape says which message a buffer under construction holds; Header, Records,
--     Finish and Kept say what each method does to it; Places and Wire.Names.Ends where names and
--     records end, Sizes how long a message is; Wire.Names.Wires, Skip and Read are the wire form of
--     a name and its readers, Wire.Query.Built, Ends and RoundTrip a query that was built and read back;
--     Wire.Query.Written which names can be written, Refused what a refused query keeps;
--     Wire.Decode reads answers, with pointers (Wire.Decode.Ends: the end of its
--     loop; Pointed and Addresses: what it reads of an answer)
--   Server        src/server.rs   `handle`, `answer`, `service`, `write_merged`, `in_zone`
--     Server.Look, Server.Merge, Server.Positive, Server.Answer, Server.Handle, Server.Buffer,
--     Server.Zone.Suffix; Server.Addresses and Merged: the answer of addresses; Server.Codes,
--     Verdict, Known and Coded: the code of an answer; Server.Silent: what is sent, coming in;
--     Server.Asked: a query that is built, answered and decoded
--   Cnames        src/cnames.rs   `CNAMEs`: `lookup` and the zones (Cnames.Lookup, Cnames.Zones)
--   Watcher       src/watcher.rs  the state machine of a peer
--     Watcher.Build is `build_jobs`, `build_job`, `extract_ip`; Valid, Actions and Steps its invariant;
--     Refreshed joins the watcher to the cache
--   Config        src/config.rs   the flags; Config.Peers (addresses, peers, `with_host_alias`), Config.Yaml
--     and Config.Scalars (the file), Config.FlagLaws, Config.Args, Config.Blames and Config.Scalars.Laws
--   Host          src/host.rs     the daemon: how it starts
--     Host.Serve (the server thread), Host.Watch (the watcher thread), Host.Refresh (`refresh`)
--     Host.Starts, Drained, Turns, Answers, Replies, Refreshes, Driven and Fallback: what each does;
--     Host.Joined: from the tasks of an agent to the answer of a query; Host.Decoded: to the
--     addresses that a client reads
--   Hopos         src/bin/hopdns-hopos.rs  the resident of HopOS: its settings and its start
--     Hopos.Serve, Watch, Mailbox (`post`) and Selftest: its tasks
--     Hopos.Started, Cached, Markers, Posted, Alike, Refreshes, Driven and Tried: what each does; Hopos.Tested:
--     the self-test against a server
--   Main          src/bin/hopdns.rs  the command: its exit codes (Main.Shown: what each outcome is)
--   Errors        src/error.rs    `Error` and `Result`
--   Base, Text    the helpers that the parts share, and Rust's `str` as far as the source calls it
--   Tests         concrete inputs
--
-- How the code is read:
--   * A function keeps its name. A method of `&mut self` gives the new state with its result. A loop is
--     recursion over what it walks; the nested loops of `write_merged` and the address lists of all
--     clusters are one walk over the lists put together.
--   * A text is the list of its UTF-8 bytes; what `name_text` writes is ASCII and what `lower_into`
--     writes differs from its text in ASCII letters only, so their `from_utf8` succeeds. A datagram is a list of numbers.
--   * The counts of a reply wrap at 2^16 and times saturate at 2^64 - 1, as in the code; `usize` is not
--     bounded. The search by halving runs at most as many rounds as there are rows: each round leaves
--     fewer. `read_name` runs on 256 labels and, at each, as many pointers as there are bytes and one
--     more: a name holds at most 255 bytes, a label adds one, and a pointer goes back. No other
--     definition has fuel.
--   * Where the code reserves memory in a table, in `set`, `update` and `event`, an argument says
--     whether the allocator gives it. Elsewhere it is taken to give it.
--   * An event of the watcher is what hoplib's `topic()` makes of it; agents and tasks are the
--     parameter `Hoplib`, with the fields that the source reads.
--
--   * The threads of the daemon and the tasks of the resident are loops over rounds: a round is what the
--     environment does in one turn (the messages that wait, what a receive gives, the time, the answers
--     of the API). A theorem over all lists of rounds is one over all interleavings of the senders. What
--     std, applib, sync and hoplib do is a parameter: the records `System`, `Resident`, `Api`, `Mailbox`.
--   * Log lines are left out, but for the marker of the cache that the resident logs.
--
-- Not modelled: the texts of `Error` and the usage, which are only printed.
pub mod Base
pub mod Errors
pub mod Text
pub mod Table
pub mod Cache
pub mod Wire
pub mod Server
pub mod Cnames
pub mod Watcher
pub mod Config
pub mod Host
pub mod Hopos
pub mod Main
pub mod Tests
