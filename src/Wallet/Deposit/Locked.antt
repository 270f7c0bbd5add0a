-- ===== src/Wallet/Deposit/Locked.antt =====
-- What `CreateTxDepositIn` creates.
use polarcloud.Prelude.{List}
