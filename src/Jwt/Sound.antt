-- ===== src/Jwt/Sound.antt =====
-- What a verified token has passed: src/security/jwt.ts.
