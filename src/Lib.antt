-- ===== src/Lib.antt =====
-- Verification of the Rust services and libraries of the repository: the semantic versions of the
-- core library, the driver service's path from a source of packages and a request to the kernel, and
-- the firewall rules and handlers of the security service.
--
-- The parts. The driver service keeps an inventory of drivers and devices. A request to install,
-- remove or update a driver goes through the execution engine, which asks the authorizer, validates
-- the request, looks the driver up in the inventory, asks the conflict detector and the signature
-- verifier, saves the driver's state, acts on the kernel or the file system, and writes the outcome
-- to the inventory, or rolls back. Every step is audited. Packages come from sources: the registry
-- holds the configured ones, the manifest of a repository is accepted if it is signed and fresh,
-- the selector ranks the packages for a device, and the download manager fetches one and verifies
-- it.
--
-- The files, and the code they model:
--   Base           names, tests, lists, results, orders, texts and decimal numbers that all share
--   Version        libraries/core/src/version.rs: `Version`, `parse`, `Display` (`display`), `Ord` (`cmp`)
--   Driver.Error, .Audit, .Inventory, .Inventory.Versions
--                  error.rs, audit.rs and inventory.rs of services/driverd/src: the data model
--   Driver.Modalias, .Kernel, .Score, .Matching
--                  matching.rs: `modalias_pattern_match`, the kernel range, the score, and
--                  `evaluate_compatibility`, cut where it branches; .Matching.Ranking holds
--                  `find_matching_drivers`, with Rust's stable sort as an insertion sort
--   Driver.Conflict    conflict.rs: `check_install`, `check_remove`, `check_update` and their checks
--   Driver.Authz       authz.rs and polkit.rs: `decision` is what `authorize` answers
--   Driver.Kmod        kmod.rs: the module list, and loading and unloading
--   Driver.Verification    verification.rs: `verify_package`; `check_package` is its answer;
--                  .Keys has the store of keys and `verify_integrity`
--   Driver.System, .World  what the operating system and the libraries do, and the state
--   Driver.Engine      execution.rs: the engine's steps; .Install, .Remove and .Update hold its three
--                  operations, cut where they branch; .Frame, .Gates, .Rollback, .Settled, .Removal
--                  and .Upgrade hold proofs about them
--   Driver.Metadata    metadata.rs: package identifiers, digests and package metadata
--   Driver.Source      source.rs: the configurations of sources, and the registry
--   Driver.Repository  repository.rs: manifests and their signatures; .Manager holds the
--                  `RepositoryManager`, .Wellformed and .Trust what it accepts
--   Driver.Selector    selector.rs; .Best is about the maximum, .Trusted about the trust in
--                  a package and .Sound about what may be selected
--   Driver.Web         what downloads ask of the HTTP client, the files and the hash libraries
--   Driver.Fetch       fetch.rs: `PackageFetcher::download` is `fetch`
--   Driver.Download    download.rs: states, policy and the check of ranges; .Manager holds
--                  `DownloadManager::download` (`download_package`), .Verified and .Bounded proofs
--   Driver.Package     package.rs: the store, and the sources by name
--   Driver.Scanner     inventory.rs: `InventoryScanner`
--   Driver.Hwdetect    hwdetect.rs: `SysfsReader`; .Modalias has the identifiers in a modalias,
--                  .Monitor `UdevMonitor`; .Ascii and .Valid are proofs
--   Driver.Cache       cache.rs; .Bounded and .Gone are about the eviction, .Bounded also about the
--                  verification of entries
--   Security       services/securityd/src: .Audit is audit.rs and signals.rs with the state, .Authz is
--                  authz.rs, .Firewall is firewall.rs, .Nftables is nftables.rs, and .Service holds
--                  the handlers of dbus.rs
--
-- How it is modelled. A `String` is the list of its UTF-8 bytes; white space and letter case are
-- those of ASCII. A `u64` is a natural number: `parse_u64` answers the error of Rust's parser above
-- 2^64 - 1, and the sequence counter wraps there. A score is a double, kept as a multiple of 2^-58;
-- `f64_add` rounds a sum to 53 bits, half to even, and the 16 rounds of `round53` are enough below
-- 2^69, where all sums lie. Stateful code is a function from the world before to the world after
-- and the answer; a mutex is held by one operation at a time, so that operations follow each other.
-- A panic of a slice is the answer `none`, and in Driver.Repository the error `panic`. The file
-- system, the system calls, the clock, the signature check and the `{:?}` format of strings and
-- paths are the fields of the record `System`; `Web` adds the HTTP client, more of the file system
-- and the hash functions. Two theorems ask laws of the file system: `IsFileSystem` for downloads and
-- `IsRemoving` for the eviction. The sum of the clock and the tolerance in `check_freshness` wraps
-- at 2^64. The loop of a download runs on fuel, which is the greatest number of
-- attempts. The hash map of trusted keys is the list of its values in the order of the walk.
--
-- Not modelled: detection of the running system, D-Bus, the backends that write
-- audit events, the walks below /lib/modules, the delays between retries, and for now the rest of
-- the core and cryptography libraries.
pub mod Base
pub mod Version
pub mod Driver
pub mod Security
