-- ===== src/Session/Protocol/Printed.antt =====
-- What `finn-session --list` prints (src/session/main.cpp), against the broker's catalogue.
