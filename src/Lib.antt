-- ===== src/Lib.antt =====
-- The model of the Python scripts of the repository: scripts/upstreams.py, the program that resolves
-- the upstream versions of the image, decides whether to build, and downloads and verifies the inputs
-- of the build; scripts/test-compose.py, which tests the Compose configuration;
-- scripts/network-fixture.py, the network that the tests of a running image have around them;
-- scripts/test-flow-exit.py, the test of its proxy; scripts/test-console.py, which watches two
-- terminals while the image runs; scripts/smoke-login.py, which logs in to it;
-- scripts/test-management.py, which tries its sockets; and the servers of the tests,
-- scripts/exit-target.py and scripts/test-server.py. The scripts share no state; those that run
-- against an image act on it only through commands, files, processes and connections.
--
-- A run of `main` resolves the state (`resolve`): the newest stable ImmortalWrt tag, the newest stable
-- PassWall and landscape releases with their assets, and for each architecture the checksum of the
-- root file system, the package feed and the redirect handler. It reads the published image from the
-- registry and compares the digest in its label with that of the state (`decide_build`). Then it
-- downloads every input against its checksum and writes the outputs of the step. Every part asks the
-- network through `request`, which retries transient failures.
--
-- The fixture (`start_service`, then the loop of `Fixture.Serve`) announces the prefixes of a stage that
-- it reads from a file; `check` waits for an address of the stage in the container, writes the next
-- stage and waits again. The exit test saves the settings of the container, sets up an exit, sends
-- traffic through it (`body`), and undoes all that in its `finally` block (`cleanup`).
--
-- Files, each with child modules for its proofs:
--   Base, Regex, Json     texts and byte strings as lists of numbers, dicts as association lists,
--                         exceptions as values, regular expressions by derivatives with their
--                         languages, JSON values with Python's dynamic operations on them, and the shapes
--                         of objects with known fields
--   Platform              what the program calls and does not implement: network, SHA-256, JSON
--                         parser and printer, clock, environment, `git`; `IsLawful` names the
--                         documented behaviour that theorems use
--   Action                code with effects: the state so far in, a result or an exception and the
--                         state behind it out, with `try` and `finally`
--   Io                    the state of a run of upstreams.py: its counters and the log of its events,
--                         and the operations on files, which the system may refuse (Io/Disk)
--   Ip                    the module `ipaddress`, a parameter
--   Script                what the other scripts share: the log of what was done, and the machine that
--                         answers; `IsClock` names the documented behaviour of its clock
--   Fixture               command and inside of network-fixture.py; Fixture/Resolver, Fixture/Advert,
--                         Fixture/Address (wait_address, verify), Fixture/Management, Fixture/Serve,
--                         Fixture/Main (check, the command line)
--   FlowExit              run, inside, ip and uci of test-flow-exit.py; FlowExit/Topology,
--                         FlowExit/Traffic (requests), FlowExit/Main (main) with its `try` block in
--                         FlowExit/Body and its `finally` block in FlowExit/Undo
--   Upstreams/Http        retry_delay, request, json_request
--   Upstreams/Digest      digest_of, verify_digest
--   Upstreams/Registry    the class Registry
--   Upstreams/Version     version_key, latest_stable_tag, and the order of tuples
--   Upstreams/Release     newest_stable_release, select_asset
--   Upstreams/Checksum    rootfs_checksum
--   Upstreams/Inputs      ARCHES, resolve_arch_inputs
--   Upstreams/State       inputs_digest, same_inputs, install_inputs, flatten_outputs
--   Upstreams/Resolve     resolve
--   Upstreams/Main        main
--   Console               start of test-console.py; Console/Serve (the loop of serve), Console/Check
--   Login                 ssh_login and login of smoke-login.py; Login/Controls (ProxyControls),
--                         Login/Image, Login/Main
--   Management            test-management.py
--   Servers               exit-target.py; Servers/Enrollment (test-server.py), Servers/Seen (the
--                         servers behind the requests of the exit test)
--   Compose               validate_config and validate_network; Compose/Cases (check_case, main)
--   Examples              test data, and the theorems at concrete inputs
--
-- The attempts of a request are counted down from 5, and the pages of tags from 10, as the source's
-- loops are. The wait for an address ends at a deadline, 45 seconds on; the model has 23 rounds with a
-- pause of two seconds each, which reach it. No other recursion needs a bound. Delays of a request are
-- whole numbers of 2^-54 seconds, times of the scripts nanoseconds; the jitter is a multiple of 2^-53,
-- and how floats round is not modelled. An integer is read from at most 4300 digits.
--
-- Not modelled: argparse (a run starts with its parsed arguments), the texts of error messages, the
-- signs, spaces and underscores that `int` takes (no name that passes a version pattern has them), and
-- failures of printing. Of the scripts that drive a machine: the timeouts of commands (the machine
-- answers with the exception), how an exception ends the loop of `serve`, negative stages, failing
-- writes, the closing of sockets and terminals, and the removal of temporary directories. Of the
-- servers: the options of their sockets, and the signal that ends them.
pub mod Base
pub mod Regex
pub mod Json
pub mod Platform
pub mod Action
pub mod Io
pub mod Ip
pub mod Script
pub mod Fixture
pub mod FlowExit
pub mod Console
pub mod Login
pub mod Management
pub mod Servers
pub mod Upstreams
pub mod Compose
pub mod Examples
