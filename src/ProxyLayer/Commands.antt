-- ===== src/ProxyLayer/Commands.antt =====
-- shamirSecretSharing in path-oram/src/trusted_proxy_layer.cpp, on what the other functions have shared.
