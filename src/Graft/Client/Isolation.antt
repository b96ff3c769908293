-- ===== src/Graft/Client/Isolation.antt =====
-- `consistent_guid` of graft/client/client.py: the counter of keys inside and after the block.
use descarteslabs_python.Prelude.{Bool}
use descarteslabs_python.Graft.Client.{Client}
