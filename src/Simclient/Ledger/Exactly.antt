-- ===== src/Simclient/Ledger/Exactly.antt =====
-- src/pic_agentic/simclient/client.py: the executions of submitted commands, over all lives of the
-- client.
use pic_agentic.Common.Dict.{Dict}
use pic_agentic.Simclient.Ledger.{Ledger}
