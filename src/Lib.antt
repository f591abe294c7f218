-- ===== src/Lib.antt =====
-- oci-amber: an OCI registry that keeps the layers of images as prisms in an amber store.
--
-- The program's parts, and the files that model them:
--
--   oci/          Digests, names, references, manifests and error codes, which every other part
--                 shares. Oci/Errors, Oci/Digest, Oci/Names and Oci/Manifest, with one definition
--                 for each function (ParseDigest is parse_digest, ValidateTag is validate_tag, and
--                 so on). The regular expressions are terms of Regex, which Regex/Complete proves
--                 to match exactly their languages.
--   store/        The objects below everything: Store/Reader is the seekable reader of read.go, over
--                 the object store and the codec of index nodes as parameters, Store/Refs the
--                 references of refs.go and Store/Dir the directories of dir.go. A reader is the
--                 stack of keys it has yet to fetch, the bytes of the chunk at hand and the error
--                 that stopped it; Store/Reader/Content says what it has left as one text.
--   image/        The images. Image/Refs is the names under which roots are published (refs.go),
--                 Image/Meta the meta.json, Image/Put is Put with its checks and its two passes,
--                 Image/Store is Open and Delete, Image/List the tags, referrers, repositories and
--                 manifests, Image/Stats the totals, Image/Rootfs the root filesystem of an image
--                 and Image/Pull is WriteTo.
--   keyedmutex/   Mutual exclusion for each key, which uploads and blobs use. KeyedMutex has a step
--                 for each section of Lock and of the function that it returns; the goroutines
--                 take such steps in any order.
--   upload/       Upload sessions, their snapshots and the manager that expires them.
--                 Upload/Session, Upload/Spool and Upload/Manager: a Session is the struct, with
--                 the file at its path as a field; a Manager holds all sessions that ever were, at
--                 numbers that stand for their pointers. Upload/Manager/Steps interleaves requests,
--                 the sweeper, Spool.Remove and Manager.Close as steps of a relation.
--   blob/         What an upload is stored as, and the published blobs. Blob/Tar is probeTar and
--                 isTarHeader over the bytes of the stream, Blob/Analyze the
--                 decision of Store.analyze and refuseRaw; Blob/Store is Put, Reuse, Open, Delete
--                 and the recent uploads; Blob/Pull is pull.go, whole blobs and ranges;
--                 Blob/Pipe is pipe.go, with the steps of the producer and of the consumer.
--   rootfs/       The root filesystem of an image. Rootfs/Path is the cleaning of names,
--                 Rootfs/Entry the conversion of archive headers, Rootfs/Tree the merged tree and
--                 Rootfs/Builder the application of layers. A *node is a path of names from the
--                 root, since a tree shares nothing; a directory's children are a Forest.
--   registry/     HTTP handlers. Registry/Routes is the routing of server.go, Registry/Blobs and
--                 Registry/Manifests the handlers of blobs.go and manifests.go with handleError,
--                 Registry/Pages the pagination of lists.go, Registry/Uploads the handlers of
--                 uploads.go over the manager and a blob store.
--   dockerarchive/ The import of archives. DockerArchive/Names is names.go, DockerArchive/Archive
--                 the scan of archive.go, DockerArchive/Resolve, DockerArchive/Plan and
--                 DockerArchive/Assign the plan of plan.go: the tree of manifests below the index,
--                 the order in which they are published, and the names of the entries. A *node
--                 is a tree, since every child is resolved anew.
--
-- Samples holds a store, keys and an image that the examples of several parts run on.
--
-- A handler of registry/ looks a session up in the manager, appends to it, takes a spool of it and
-- gives that to the blob store; a stored blob is published under its digest; an image refers to blobs
-- by digest, and its layers, read back from their prisms, are merged by rootfs/. A pull routes the
-- path, opens the root through its reference and streams a file of it through the reader. The plan of
-- an archive is the order of the pushes that import it.
--
-- Conventions. A text is the list of its bytes. Sizes, times and file offsets are natural numbers
-- where the code has an int64 that is never negative; a descriptor's size, which comes from outside, is
-- an integer. Times are nanoseconds, and a difference of times is cut off at zero, which the code's
-- comparisons with a positive timeout do not tell apart. Errors keep their code and what a client reads
-- of the detail; their messages are left out. Every answer of the operating system is an argument, so
-- that a theorem holds for all of them. crypto/sha256 is an argument: a function of texts. Where the
-- order of a Go map does not matter it is an association list, read through lookup. A call of the image
-- store and a Put of the blob store are one step: the lock per digest covers the whole of the latter, and
-- the lock per repository all of an image's Put but the resolution of its blobs and the build of its root
-- filesystem, which read before the lock is taken, so that the model does not tell what is deleted in
-- between.
--
-- Bounds. Path resolution follows at most 40 symlinks; Rootfs/Tree recurses on the links that are left
-- and then on the components that are left, so that no fuel is needed. Registry/Pages/Follow requests
-- pages on fuel, of which the number of items is enough, as its theorem states. The reader of store/
-- recurses on fuel, since the object store may answer a key by anything: a file whose tree has `n`
-- objects needs fuel above `n + 1`, which the theorems on reads and skips are stated with and proved
-- from. The loop of a manifest's WriteTo runs in rounds, and one more than the bytes of the manifest is
-- enough. The resolving of an archive's index takes the nesting depth of its indexes as fuel. Manifests
-- that name each other by digest have no cycle, so that some rank falls from each to those it names;
-- fuel above the rank of a manifest is enough for it, and more makes no difference to a plan.
--
-- Not modelled: the amber store, zrecipe, tar-prism, archive/tar, encoding/json and net/http, which
-- are libraries; logging, progress observers, terminal and HTML rendering, and the command line. Of
-- blob/, the passes over the content; of store/, the accounting writer and packs; of image/, the log
-- of an image; of registry/, the recovery of panics and the API of root filesystems; of dockerarchive/,
-- the staging and the writing of tar files; of rootfs/, the splice that feeds archive/tar, the written
-- form of the tree and the reader FS; the packages importer, browse and tui.
pub mod Prelude
pub mod Regex
pub mod Oci
pub mod Image
pub mod Upload
pub mod Rootfs
pub mod Registry
pub mod Blob
pub mod KeyedMutex
pub mod Store
pub mod DockerArchive
pub mod Samples
