-- ===== src/Lib.antt =====
-- wanchain-js-sdk: a model of the core of the SDK of Wanchain wallets.
--
-- The SDK moves coins and tokens between Wanchain, Ethereum, Bitcoin and EOS by hash time locks. A
-- transaction (src/trans) inserts a record into the transaction database (src/db/wandb.js). Three
-- monitors (src/core) look at the records on timers, ask the chains through an RPC client, and
-- change the status and the times of a record; canRedeem and canRevoke (src/api/ccUtil.js) read
-- them. A fourth monitor scans Wanchain for private transactions to the user's one-time addresses
-- (OTAs). Wallets (src/hdwallet) keep keys in tables of a second database (src/db/table.js).
--
-- Files and what they model:
--   Table     src/db/table.js: DBTable, with its look-ups (Table/Find), and what callers write out to
--             insert or update a row (Table/Upsert)
--   Objects   objects with computed keys, in the order in which the keys were set
--   Items     src/db/wandb.js: insertItem, updateItem, getItem, getItemAll and the filters
--   Cross     src/trans/status/Status.js, the record of a crossing, canRedeem and canRevoke
--   Pipeline  src/trans/cross-chain/common/CrossChain.js: run; the stages of CrossChainEthLock.js
--             beside it in eth, of approving (Approving), redeeming and revoking (Closing), and
--             run of CrossChainE20Lock.js and CrossChainEosLock.js (TokenLock)
--   BtcPipeline  src/trans/cross-chain/btc: locking with its notice, redeeming and revoking
--   NormalChain  src/trans/normal-chain: run and its classes (Classes); src/trans/wan-special: the
--             classes of staking and private sending (Special) and of refunding (Refund)
--   TxData    src/trans/tx-data-creator: the creators of ETH (Eth), E20 (Token), staking (Stake),
--             transfers (Normal) and the notice of a lock of BTC (Notice); run with its nonces
--             (Accounted)
--   Hex       src/api/ccUtil.js: hexTrip0x, hexAdd0x
--   Invoker   src/core/CrossInvoker.js: getSrcChainNameByContractAddr, isInSrcChainsMap; the maps of
--             configurations (Inbound, Outbound, Maps) and the look-ups by name (Names)
--   Monitor   src/core/monitor.js: wait*Confirm, the events of a failed receipt (CrossType), the
--             storeman's lock (Buddy), monitorRecord, and rounds of monitorTask (Round)
--   Normal    src/core/monitorNormal.js: waitNormalConfirm, monitorRecord, the OTA row, and
--             the round of monitorTaskNormal (Round) and what it marks (Marking)
--   BtcMonitor  src/core/monitorBtc.js: check*, monitorRecord, checkCrossHashOnline (Online) and
--             the handling list of monitorTaskBtc (Handling) and its sweeps (Handled)
--   OtaMonitor  src/core/monitorOTA.js: startScan (Start), scan and its ranges (Scan, Sizes), the
--             matching of transactions (Matching), fetchTransaction (Fetch)
--   OtaStorage  src/db/otaStorage.js: addOTAIfNotExist, getOTAMixSet
--   UserAccounts  src/api/hdUtil.js: the user accounts, and the imported accounts (Imported)
--   Nonce     src/api/ccUtil.js: getNonceByLocal, addNonceHoleToList
--   Utxo      src/api/ccUtil.js: btcCoinSelect, btcGetTxSize, getUTXOSBalance
--   Bip44     src/util/util.js: splitBip44Path, getChainIDFromBIP44Path
--   RawKey    src/hdwallet/wallets/rawkey.js: importPrivateKey, getPrivateKey, size
--   KeyStore  src/hdwallet/wallets/keystore.js: importKeyStore, exportKeyStore, getAddress,
--             getPrivateKey, size
--   Discovery  src/hdwallet/chains/chain.js: discoverAddress, _scanAddress, _loadChainInfo, and
--             _splitPath (Paths)
--   Safe      src/hdwallet/safe.js: the wallets (Registry) and their health checks (Health)
--   Prelude   shared names, Boolean tests, lists, and exceptions as values
--
-- A handler of a monitor is a function of its record, which in the source is a live reference into
-- the database, and of the replies that it awaits. Its outcome is the record afterwards and how
-- often it was written, so what an exception leaves behind is in the outcome. Times of crossings
-- are milliseconds where the source keeps seconds; a text "" for a time not known is `none`. No
-- definition takes fuel: loops are recursions on a list, on a number of rounds, or on a number of
-- addresses. A round of the scan for OTAs counts a failure as a negative number, an integer of
-- Prelude/Integers.
--
-- A class of transactions is a record of its stages. Those that write the database are modelled, and
-- those that check the input; what the others answer is given, and what they compute is left out.
--
-- Parameters: the replies of the chains, encodeTopic, the decoding of events, the address of a
-- Bitcoin contract, web3's encoding of calls, BigNumber, Array.prototype.sort, parseInt, random
-- indices, the decoding of calls and the ownership of OTAs, and the ciphers of private keys and
-- keystores. Not modelled: timers, the log, lowdb's file, web sockets, deriving keys, signing, the
-- mnemonic, and the creation of the data of EOS, of BTC and of private transactions, which call
-- libraries throughout.
pub mod Prelude
pub mod Table
pub mod TxData
pub mod Items
pub mod Cross
pub mod Invoker
pub mod Monitor
pub mod Normal
pub mod NormalChain
pub mod Hex
pub mod Objects
pub mod Discovery
pub mod KeyStore
pub mod UserAccounts
pub mod OtaStorage
pub mod OtaMonitor
pub mod BtcMonitor
pub mod BtcPipeline
pub mod Nonce
pub mod Utxo
pub mod Bip44
pub mod RawKey
pub mod Safe
pub mod Pipeline
