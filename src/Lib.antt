-- ===== src/Lib.antt =====
-- HaarpCache is a caching HTTP proxy for large files such as videos. A client asks for a range of
-- bytes of a file; the proxy keeps, for each file of an origin server, one file on disk and a row
-- of a data base that says which ranges of bytes are on disk and where. A request is cut into
-- blocks that are on disk and blocks that come from the server; what comes from the server is
-- written to the end of the file and entered into the list of ranges.
--
-- The parts, and the code that they are about:
--   Base        numbers, integers, tests and lists that all modules share
--   Text        the text functions of haarp/utils.cpp; Text/Explode has `stringexplode`, with its
--               separator semantics, Text/Directory `ConvertChar`, Text/Number `llitoa` and
--               `atoll`, Text/Number/Prefix what `sscanf` reads by `%lli`
--   Intervals   haarp/utils.h and the interval functions of haarp/utils.cpp: the list of ranges,
--               `appendNode`, `appendSubNode`, `getPointEnd`; Intervals/Work has `getRangeWork`,
--               Intervals/Codec has `list2string` and `generateList`, the columns `rg` and `pos`
--   Users       `addUserCache`, `lusercache2str` and `str2lusercache` of haarp/utils.cpp
--   Row         the columns that `SubUpdate` of haarp/connectiontohttp2.cpp writes
--   Body        the branch of `ConnectionToHTTP2::ReadBodyPart` (haarp/connectiontohttp2.cpp) that
--               writes a body from the server to the file, and `SubUpdate`
--   Serve       its branch that serves a body from the file
--   Limits      `ConnectionToHTTP2::getLimitBytes`, the range that a request asks for
--   Plan        `ConnectionToHTTP2::Cache2`, the blocks for an answer whose length is known
--   Update      `ConnectionToHTTP2::Update`, the end of a transfer
--   Lock        `lockFile` and `liberate_edition` of haarp/connectiontohttp2.cpp; Lock/System has the
--               connections that lock one row
--   Answer      `isForCache`, `saveClientIP`, `UpdateFileSizeinPartial` and `getHeaderFromServer` of
--               haarp/connectiontohttp2.cpp; Answer/Length has `getOnlyContentLength` and the first
--               branch of `ReadHeader`
--   Seek        `longSeekpFile` of haarp/utils.cpp
--   Socket      `Recv`, `RecvLength` and `Send` of haarp/sockethandler.cpp; Socket/Stream has the
--               stream of bytes that a socket stands for
--   Http        `HTTPHandler` (haarp/httphandler.cpp): Http/Header has `ReadHeader`, Http/Chunk
--               `ReadBodyPart`, Http/Hex the hexadecimal numbers that it reads, Http/Lines
--               `AnalyseHeader` and `SendHeader`; the virtual functions are an `Analyser`
--   Server      `ConnectionToHTTP` (haarp/connectiontohttp.cpp): the header of a response
--   Browser     `ConnectionToBrowser` (haarp/connectiontobrowser.cpp): the header of a request
--   Plugins     the plugins of haarp/plugins that take the last part of the path as the name of
--               the file; Plugins/Sites has the test and the domain of each
--   Tests       runs of the definitions, and instances of the theorems
--
-- The connecting notion is `Stored` of Intervals/Store: the list of ranges puts a byte of the origin's
-- file at a place on disk. `getRangeWork` and `appendNode` are described by it, and Body relates it to
-- the content of the file.
--
-- A `std::list` is a list, an iterator into it the node with what is before and behind it, or the
-- rest of the list from it on. `std::list::sort` is a stable insertion sort. A `long long` is an
-- integer without bound: sizes of files stay far below 2^63. Text is a list of bytes. `sscanf` and
-- `atoll` have no overflow. An exception of `at` is `none`.
-- A file is a function from places to bytes; a write cannot fail; a read that comes up
-- short sets the fail bit of its stream. The clock is read where the source reads it, by a record
-- of readings.
--
-- The loops of `stringexplode`, `splitstring` and `SearchReplace` run on fuel above the length of the
-- text: each round takes a byte or ends. Printing a number runs on one more than the number. The loops that read from a socket
-- run on fuel above its weight, the bytes and arrivals that it can still give. All other loops follow
-- a list.
--
-- What `select`, `::recv` and `::send` return is a list, one entry for each call; when it runs out,
-- the wait times out.
--
-- A text that overflows the buffer of `sprintf` in `lusercache2str` has no defined effect; `Fits`
-- says that it does not. In Lock the data base is the row of one file and whether each statement is
-- carried out; time is counted in seconds. The match of a regular expression is an argument.
--
-- Not modelled: the opening of sockets, processes and signals, the MySQL client, the POSIX regular
-- expressions, the other plugins, `Cache`, which looks for a plugin and opens the files, the branch
-- of `ReadBodyPart` that resumes a download, and `ReadHeader` behind its first branch.
pub mod Base
pub mod Text
pub mod Intervals
pub mod Users
pub mod Row
pub mod Body
pub mod Seek
pub mod Serve
pub mod Update
pub mod Socket
pub mod Http
pub mod Server
pub mod Browser
pub mod Limits
pub mod Lock
pub mod Plan
pub mod Answer
pub mod Plugins
mod Tests
