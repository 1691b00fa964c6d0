-- ===== src/Lib.antt =====
-- A model of SEMA Core, the TypeScript package that issues identifiers and keeps the nodes,
-- commands and capabilities of an installation, with proofs about it.
--
-- Parts:
--   Identity.antt: KeyIDs and Base56, src/identity/base56.ts. A text is the list of its UTF-16
--     code units; toUpperCase is written out for the characters whose capitals are ASCII.
--   Topology.antt: the nodes that a Core holds, src/topology/local-nodes.ts. Types has the
--     records, Counter has advance, Store is InMemoryLocalNodeStore, Node has the private
--     helpers of LocalNodes, and Placing, Issuing, Children, Organization and Listing have its
--     operations. Requests serves them one after the other; a refused request changes nothing,
--     as every operation writes only after its last check.
--   Core.antt: the records of src/core/types.ts and the reference store,
--     src/stores/in-memory-store.ts. Exec is a method that reads and writes the store and may
--     throw; what it wrote before it threw stays. Requests has the store's methods called one
--     after the other. Inputs and Sema are the class SemaCore of src/core/sema-core.ts, each
--     operation as the store calls that it makes, with one reading of the clock for the whole
--     operation.
--   FirstIds.antt: the first IDs of systems, src/host/install-code.ts and the block that
--     src/host/in-memory-host-store.ts keeps. sha256 is a parameter that gives the values of a
--     digest's hexadecimal digits.
--   Capabilities.antt: the records of capability versions, services, installations and running
--     copies, src/capabilities/records.ts, CapabilityRegistry of src/capabilities/registry.ts,
--     which checks what it is given and keeps them, and the checkers of
--     src/capabilities/schema.ts. Values, Offers and Contracts have the checks of single values,
--     Schema is schemaProblems, Answers is valueProblems, and Lengths, Fitting and Matching say
--     without its tests what it is that a value matches a schema; Records is
--     InMemoryCapabilityStore; Inputs, Registry and Legacy have the operations, and Calls makes
--     them one after the other, those that throw included. What issues the IDs is a parameter
--     with a state of its own, JSON.stringify is a parameter, and what machineNodeId answers is
--     an argument.
--   Work.antt: the work that commands ask of services, src/capabilities/work.ts. Needs is
--     needsOf and shortfalls, Reasons what a service says of itself, Types and Store are the
--     records and InMemoryWorkStore, and Calls has the calls of the store that CapabilityWork
--     makes, with what each expects of an execution and writes. Passing, Answering and Reporting
--     are the operations of CapabilityWork that running copies call, over the work store, the
--     records of Capabilities and the Core store; Served has them one after the other. Planning
--     is plan, which chooses the services of a command, with localeCompare a parameter and
--     without the texts that say why a service cannot run. An operation reads the clock once.
--     takeWork is one round of its loop, without the wait for the next, and the answer to a copy
--     holds the parts of the payload that are there; its offers are stale after a minute, which
--     assumes a clock past its first minute. A running execution has an instance, so markSilent
--     never compares one that has none. A time is an instant: the texts of the source are all of
--     one form, so they order as the instants do. The until of a deferral is what Date.parse
--     reads from it. The way a template literal writes a number, JSON.stringify and
--     Buffer.byteLength are parameters.
--
-- Conventions: an operation that throws returns a Result, with an error named for the message. A
-- JavaScript Map is an association list in order of insertion. A bigint counter, which starts at 0
-- and only grows, is a natural number; a number that a caller gives may be negative or not whole.
-- A number of a JSON value is the decimal that JavaScript prints for it. Numbers are exact: the
-- source's are doubles where it does not say bigint, which are exact up to 2^53. A text that
-- stands for a time is the instant that Date.parse reads from it, or one that it cannot read; the
-- clock's reading is an argument. A value whose type the source checks at run time is an Option or
-- a data type with a case for what is refused.
--
-- Bounds: the loop of encodeBase56 has as many rounds as the number, which is enough since every
-- round divides it by 56; total_of-encode_loop and encode_loop_rounds say so.
--
-- The stages of valueProblems on a schema outside the subset, which throw or read a text as a
-- list, are not modelled: the source only gives it schemas that schemaProblems let pass.
--
-- A name is looked up among an object's own, except where registry.ts reads the properties of an
-- operation's input and output, where it also finds the names that every object inherits. States
-- that the operations never reach are not followed into a TypeError, such as a node without its
-- list of children.
--
-- Not modelled: the listings of SEMA Core, its store and the registry, the text that describes the
-- capabilities, the running of commands and the waiting for them, the HTTP server and peers, the
-- Prisma stores, keys and signatures, the service wrapper, the rest of the host, and the
-- conversations between Cores.
pub mod Prelude
pub mod Identity
pub mod Topology
pub mod FirstIds
pub mod Core
pub mod Capabilities
pub mod Work
