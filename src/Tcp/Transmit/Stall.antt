-- ===== src/Tcp/Transmit/Stall.antt =====
-- `ackTransmitWindow` behind `rollbackTCPTransmitSequence`: the number to send next stays behind.
