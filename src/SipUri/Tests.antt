-- ===== src/SipUri/Tests.antt =====
-- src/logParse.py: addresses.
