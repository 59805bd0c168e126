-- ===== src/Lib.antt =====
-- The configuration of a luminosity project, the commands that print it, and the resolution of the
-- binaries of its subcommands.
--
-- A project keeps its configuration in markdown files under `.luminosity`, one for the team and one
-- for a person. A file is YAML frontmatter between two `---` lines, which holds typed keys, and a
-- body below it, which is spliced into prompts. Skills have files of the same form in directories
-- of their own.
--
-- The parts, from the bottom:
--
-- Base      Shared names and lemmas: texts as lists of code points with the string operations of
--           the standard library that the program uses (byte lengths, slices that may panic,
--           splitting, trimming), results, options, lists over the native numbers.
-- Platform  What the program takes from the operating system. Path is `std::path::Path` as a list of
--           components. Files is `std::fs` as a record of calls over a state that nothing is known
--           of; what a theorem relies on are the records FileLaws and SystemLaws of the file store.
--           They speak of the paths that the store uses under a root and say nothing where a link leads
--           from one of them to another.
-- Config    cli/config. Level, Key, Error, Source and Node are the files of those names; Error holds
--           the boundary error of cli/kernel too. Service is service.rs: `resolve`, `insert` and its
--           two steps, and in its child Access the ports and `ConfigService`; a `&mut Mapping` is a
--           mapping that is returned, and what is written through the reference to a child is put
--           back into the parent. Fragment is fragment.rs.
-- Adapters  cli/config-adapters. Frontmatter is frontmatter.rs, Document is document.rs and Store is
--           store.rs, whose ports are in its child Operations. The YAML library is the record Yaml:
--           a tree of the calls that it makes to `ParsedVisitor`, or that `Serialize` makes to it;
--           what a theorem relies on is the record YamlLaws, which promises that a document is read
--           back where no mapping has a name twice and the library keeps its floats, and that what is
--           read is such a document. The state of a store is the file system
--           and the counter of its temporary names.
-- Launcher  cli/launcher. Support is command_support, the boundary that degrades failures to notices;
--           Context and Instructions are the two commands over it, and a run is the lines that it
--           prints to each stream with its result. They take `AssembleFragment`, which Config.Fragment
--           implements, as a record. ConfigCommand and Version are the other two commands. External
--           is launch/core.rs and Resolve is the resolver under launch/outbound/resolve: Fetch is
--           fetcher.rs, Trust is keys.rs, verifier.rs and manifest.rs, Cache is cache.rs, CacheRoot
--           is cache_root.rs and Resolve itself is mod.rs. The state of a resolution is the file
--           system under the cache; what the network answers is a function of the URL and the
--           attempt, since a run fetches each URL once. Cli is launch/inbound/cli.rs, Help is
--           launch/help.rs, Dispatch is launch/mod.rs with exec.rs, and Main is main.rs
--           with tls.rs, over System, what it asks of the machine, and Resolvers, the two resolvers
--           that main.rs and resolver.rs make: a process ends in an exit or in the program that takes
--           it over.
-- Verifier  cli/verify: the tool with which the bootstrap verifies the launcher.
-- Tests     Concrete inputs, with a store, a disk and a YAML library in memory that keep their laws.
--
-- Config calls its stores through the records Ports and Reader, which Adapters.Store.Operations
-- fills; Launcher calls Config through the records Assembler and ConfigAccess, and Launcher.Main hands
-- both to Launcher.Dispatch, with the resolver, in the record Services.
--
-- Bounds. The numbers are natural numbers; an integer of a document is signed, and one beyond
-- 2^63 - 1 becomes a text as in the source; the counter wraps at 2^64. Every loop is a recursion on
-- the list or the tree that it walks, except the walk up from a directory to the root of a project,
-- whose fuel is one more than the number of components, which is the number of its ancestors, and the
-- retries of a fetch, whose number is that of the attempts that the fetcher allows.
--
-- Not modelled: the parsing of arguments and the help texts, which are clap's, the build script, and
-- the calls into the process, the network and the environment, which the record System of
-- Launcher.System holds. The digest, the signature scheme, the JSON and YAML parsers
-- and the decoding of the bytes of a signature are parameters. Which file-system calls fail, and
-- what other processes do meanwhile, is up to the parameter; a run is one sequence of calls, and only
-- the writers of one level are taken call by call, in Adapters.Store.Operations.Writers.
pub mod Base
pub mod Platform
pub mod Config
pub mod Adapters
pub mod Launcher
pub mod Verifier
pub mod Tests
