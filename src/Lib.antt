-- ===== src/Lib.antt =====
-- polarcloud: its browser side, and several parts of its node in Go. The browser side is the scripts
-- web/static/assets/js/model/*.js, which are the program's own code in web/static/assets/js. They
-- draw a drive of files with its bin, messages and anonymous listing, log a user in and out, and
-- register one. The parts of the node are the packets of core/engine, the requests that wait in
-- core/message_center, the pieces of files of store, the polls of core/utils, the nearest nodes of
-- core/nodeStore, and the balances, blocks and payments of wallet/mining.
--
-- How the parts interact. A page loads file-index.js and user.js together, so their globals are one
-- state: `Page` (Page.antt). Every handler of a button is a function of it. What the handler asks
-- of the document is recorded in `calls`, the latest first, and `Browser.View` reads off what is
-- shown, which rows a table holds and what a text is. An `$.ajax` adds a `Request` to `pending`,
-- whose `Callback` names its success function with the variables that it closes over; that function
-- is a definition of its own, which takes the answer (`on_files_answer` is the success function of
-- `getFileList`). So answers can come in any order, and Drive/Events.antt puts all handlers and
-- answers of the page together as a step relation. The registration form and the picture with a
-- code have states of their own, `Register.Form` and `Verify.Options`. A block that the node adds
-- (`add_block`) is counted (`count`), and a payment (`create_tx_pay`) spends what was counted: `Node`
-- holds the manager of the balances with the chain.
--
-- Which file models which part; names are those of the source in this library's spelling.
--   Prelude, Prelude/*, Strings, Strings/*: shared helpers; JavaScript's strings as lists of UTF-16
--     units, with `substring`, `slice`, `split`, `lastIndexOf`, `unescape` and decimal numbers.
--   Cookies, Cookies/*: `getCookie` of file-index.js, user.js and register.js, the text that
--     `setCookie` assigns, and `document.cookie` as a list of entries.
--   Browser, Browser/*: the calls, the payloads, the values of JavaScript, `setCookie`, `delCookie`.
--     `Host` holds what the scripts ask of their surroundings: the cookie store, the clock, the
--     text of a date, md5.js and `jQuery.parseJSON`.
--   Files, Files/*: `getFileKind`, `getFileExt` and the size in `displayItemFile` (file-index.js).
--   Drive/Row, Panels, Listing, Anonymous, Messages, Trash, Selection, Upload, Start: the rest of
--     file-index.js: rows, panels, `getFileList` and directories, `getAnonymousFileList`,
--     messages, `dokillItem` and its buttons, the check boxes, `doUploadfile`, `init` and the menu.
--   Drive/Events, Drive/Events/*: the buttons of file-index.html and all answers, as steps of the page.
--   Account, Account/*: user.js: `loginFunc`, `doLogoutFunc`, `getCode`, the user's data, passwords.
--   Register, Register/*: register.js: `checkPasswords`, the code by SMS with the countdown of
--     `setDaoJiShi`, `submitform`.
--   Verify, Verify/*: gVerify.js: the constructor with the canvas it makes, the code, `validate`, and
--     the drawing of `refresh`.
--   Layers, Layers/*: popmodel.js: the layers over a page, and the inputs that it fills.
--   Table: a Go map with texts as keys, and an object of JavaScript.
--   Address: getnewaddress.js.
--   Engine, Engine/*: core/engine/package.go, `MarshalPacket` and `RecvPackage`, and the loop of `recv`
--     in serverConn.go: packets that are sent, cut by the connection, received, refused.
--   Store, Store/*: `AddFileChunk`, `Check`, `Assemble`, `Diced`, `writeFileChunk` of
--     store/filechunk.go, `AddChunk` of fileinfo.go, and `DownloadFileOpt` of operation.go
--     (Store/Network: with what its goroutines write).
--   Store/Fetch, Store/Fetch/*: `DownloadFilechunkToLocal` of store/fileinfo_local.go, which fetches one
--     piece from the users that share it, and `DownloadFilechunk` of handlers.go, which answers it.
--   Waits, Waits/*: core/message_center/waitrecv.go, `WaitRequest` and `ResponseWait`, with the steps of
--     the calls as a relation.
--   Wallet, Wallet/*: wallet/mining: `count` of balance.go on the types of transaction.go
--     (Wallet.antt), the names of recorded outputs, the movements that `count` amounts to, what is
--     unspent and what stays recorded.
--   Wallet/Chain, Wallet/Chain/*: `AddBlock`, `GetFirstBlock`, `GetLastBlock` of chain.go, `addWitness` of
--     witness_new.go.
--   Wallet/Deposit, Wallet/Deposit/*: `CreateTxDepositIn` of transaction_deposit.go.
--   Wallet/Merkle, Wallet/Merkle/*: `BuildMerkleRoot` of block.go.
--   Wallet/Pay, Wallet/Pay/*: `CreateTxPay` of transaction_pay.go: the outputs that it chooses, what they
--     make up, its signatures, and sums that do not fit in a uint64.
--   Votes, Votes/*: core/utils/vote.go, `Vote` and `removePross`, the polls of the node.
--   Nodes, Nodes/*: core/nodeStore, `Add` and `Get` of kademlia.go and `AddId` of logic_id.go, with the
--     numbers of `big.Int` that they use.
--   Tests, Tests/*: runs at fixed inputs.
--
-- Bounds and fuel. Sizes, ids and page numbers are natural numbers below 2^53, where JavaScript's
-- numbers are exact. The loop of the size runs on fuel, which is the size itself: every round
-- divides what is left by 1000. Decimal numbers are written with the number plus one as fuel.
-- Random numbers are given by their numerators over 2^53, with exact products.
--
-- A connection is the bytes that come before it is closed, and how many of them each `Read` finds
-- at most; it is live if every `Read` finds one as long as there are any. The bytes behind a buffer
-- in its array, which slices may reach, are a parameter (`spare`), and so are the net id, the names
-- of pieces and the hash of a file, and the size of a piece, which the program sets to 8 MiB. Sums
-- of lengths are those of uint64. The goroutines of a download are the order in which their pieces
-- arrive. Fetching a piece runs on fuel for the rounds with each user, of which two more than
-- bytes are left are enough. The levels of a Merkle tree run on fuel, the number of its leaves; the
-- hash is an argument.
-- Reading and writing files succeed where the files are there.
--
-- Of the wallet, `Keystore` and `Signer` hold what the code asks of its keys, its database, encoding/json
-- and the hash of a transaction; results on what stays recorded take hashes to be bytes. A sync.Map is an
-- association list, whose order is that of `Range`; results hold for every such list. The lists of the
-- groups and of their blocks stand for the links of the chain. A call of `WaitRequest` is one step up to
-- its `select`, and one after it; a waiter may give up at any time, so the clock is left out.
--
-- A browser is a parameter. Results on cookies assume `Browser.Jar.IsJar`, which is RFC 6265 for
-- a `name=value;expires=date` text whose name and value have no blanks at their ends: the cookie
-- of the name is replaced or added, and dropped if its date, to the second, is not in the future.
-- The browser reads the date, which the scripts write as a local one, some minutes ahead or
-- behind (`ahead`, `behind` of `Host`), since the RFC ignores its zone. A cookie is plain for a
-- name (`Cookies.Entries.IsPlain`) if its name and value hold no equals sign, its value no
-- semicolon, and its name does not end in that name.
--
-- Not modelled: `myAddressBook` of user.js, which throws at its first statement; the bytes of an
-- uploaded file and the progress of its transfer; copies of other projects (jQuery and its file upload,
-- Amaze UI, handlebars, md5.js, qrcode, the Axure player, the menu of dist, app.js of the upload's demo);
-- and of the node in Go web/controllers, boot, config, and the rest of wallet, core and store: the key
-- files and signatures, elections and witness groups, mining, synchronization, rewards,
-- the rest of the message center and of the node store, and the indexes of files. The answers under /api
-- come from a center whose code is not in the repository; they are arguments of the success functions.
pub mod Prelude
pub mod Strings
pub mod Table
pub mod Files
pub mod Cookies
pub mod Browser
pub mod Page
pub mod Drive
pub mod Verify
pub mod Account
pub mod Register
pub mod Address
pub mod Layers
pub mod Engine
pub mod Store
pub mod Votes
pub mod Nodes
pub mod Waits
pub mod Wallet
mod Tests
