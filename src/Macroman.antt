-- ===== src/Macroman.antt =====
-- src/macroman.rs: characters, as code points, and their bytes in Mac OS Roman.
pub mod Inverse
use allsorts.Base.{
  ℕ, Bool, true, false, List, [], ◌∷◌, Option, none, some, ltb, leb, ◌==◌, if◌then◌else◌,
}

-- The arms of a match on constants, in order.
unfoldable pub find_arm : List (ℕ × ℕ) → ℕ → Option ℕ
find_arm [] k = none
find_arm ((key, value) ∷ arms) k = if k == key then some value else find_arm arms k

unfoldable pub char_arms : List (ℕ × ℕ)
char_arms =
    (196, 128)
    ∷ (197, 129)
    ∷ (199, 130)
    ∷ (201, 131)
    ∷ (209, 132)
    ∷ (214, 133)
    ∷ (220, 134)
    ∷ (225, 135)
    ∷ (224, 136)
    ∷ (226, 137)
    ∷ (228, 138)
    ∷ (227, 139)
    ∷ (229, 140)
    ∷ (231, 141)
    ∷ (233, 142)
    ∷ (232, 143)
    ∷ (234, 144)
    ∷ (235, 145)
    ∷ (237, 146)
    ∷ (236, 147)
    ∷ (238, 148)
    ∷ (239, 149)
    ∷ (241, 150)
    ∷ (243, 151)
    ∷ (242, 152)
    ∷ (244, 153)
    ∷ (246, 154)
    ∷ (245, 155)
    ∷ (250, 156)
    ∷ (249, 157)
    ∷ (251, 158)
    ∷ (252, 159)
    ∷ (8224, 160)
    ∷ (176, 161)
    ∷ (162, 162)
    ∷ (163, 163)
    ∷ (167, 164)
    ∷ (8226, 165)
    ∷ (182, 166)
    ∷ (223, 167)
    ∷ (174, 168)
    ∷ (169, 169)
    ∷ (8482, 170)
    ∷ (180, 171)
    ∷ (168, 172)
    ∷ (198, 174)
    ∷ (216, 175)
    ∷ (177, 177)
    ∷ (165, 180)
    ∷ (181, 181)
    ∷ (170, 187)
    ∷ (186, 188)
    ∷ (230, 190)
    ∷ (248, 191)
    ∷ (191, 192)
    ∷ (161, 193)
    ∷ (172, 194)
    ∷ (402, 196)
    ∷ (171, 199)
    ∷ (187, 200)
    ∷ (8230, 201)
    ∷ (160, 202)
    ∷ (192, 203)
    ∷ (195, 204)
    ∷ (213, 205)
    ∷ (338, 206)
    ∷ (339, 207)
    ∷ (8211, 208)
    ∷ (8212, 209)
    ∷ (8220, 210)
    ∷ (8221, 211)
    ∷ (8216, 212)
    ∷ (8217, 213)
    ∷ (247, 214)
    ∷ (255, 216)
    ∷ (376, 217)
    ∷ (8260, 218)
    ∷ (164, 219)
    ∷ (8249, 220)
    ∷ (8250, 221)
    ∷ (64257, 222)
    ∷ (64258, 223)
    ∷ (8225, 224)
    ∷ (183, 225)
    ∷ (8218, 226)
    ∷ (8222, 227)
    ∷ (8240, 228)
    ∷ (194, 229)
    ∷ (202, 230)
    ∷ (193, 231)
    ∷ (203, 232)
    ∷ (200, 233)
    ∷ (205, 234)
    ∷ (206, 235)
    ∷ (207, 236)
    ∷ (204, 237)
    ∷ (211, 238)
    ∷ (212, 239)
    ∷ (210, 241)
    ∷ (218, 242)
    ∷ (219, 243)
    ∷ (217, 244)
    ∷ (305, 245)
    ∷ (94, 246)
    ∷ (732, 247)
    ∷ (175, 248)
    ∷ (728, 249)
    ∷ (729, 250)
    ∷ (730, 251)
    ∷ (184, 252)
    ∷ (733, 253)
    ∷ (731, 254)
    ∷ (711, 255)
    ∷ []

unfoldable pub char_to_macroman : ℕ → Option ℕ
unfolding find_arm char_arms
char_to_macroman chr = if ltb chr 0x7f then some chr else find_arm char_arms chr

unfoldable pub is_macroman : ℕ → Bool
unfolding char_to_macroman
is_macroman chr = elim (char_to_macroman chr) [ none ↦ false | some _ ↦ true ]

-- The arms of `macroman_to_char` behind the one for the range 0..=127
unfoldable pub macroman_arms : List (ℕ × ℕ)
macroman_arms =
    (128, 196)
    ∷ (129, 197)
    ∷ (130, 199)
    ∷ (131, 201)
    ∷ (132, 209)
    ∷ (133, 214)
    ∷ (134, 220)
    ∷ (135, 225)
    ∷ (136, 224)
    ∷ (137, 226)
    ∷ (138, 228)
    ∷ (139, 227)
    ∷ (140, 229)
    ∷ (141, 231)
    ∷ (142, 233)
    ∷ (143, 232)
    ∷ (144, 234)
    ∷ (145, 235)
    ∷ (146, 237)
    ∷ (147, 236)
    ∷ (148, 238)
    ∷ (149, 239)
    ∷ (150, 241)
    ∷ (151, 243)
    ∷ (152, 242)
    ∷ (153, 244)
    ∷ (154, 246)
    ∷ (155, 245)
    ∷ (156, 250)
    ∷ (157, 249)
    ∷ (158, 251)
    ∷ (159, 252)
    ∷ (160, 8224)
    ∷ (161, 176)
    ∷ (162, 162)
    ∷ (163, 163)
    ∷ (164, 167)
    ∷ (165, 8226)
    ∷ (166, 182)
    ∷ (167, 223)
    ∷ (168, 174)
    ∷ (169, 169)
    ∷ (170, 8482)
    ∷ (171, 180)
    ∷ (172, 168)
    ∷ (174, 198)
    ∷ (175, 216)
    ∷ (177, 177)
    ∷ (180, 165)
    ∷ (181, 181)
    ∷ (187, 170)
    ∷ (188, 186)
    ∷ (190, 230)
    ∷ (191, 248)
    ∷ (192, 191)
    ∷ (193, 161)
    ∷ (194, 172)
    ∷ (196, 402)
    ∷ (199, 171)
    ∷ (200, 187)
    ∷ (201, 8230)
    ∷ (202, 160)
    ∷ (203, 192)
    ∷ (204, 195)
    ∷ (205, 213)
    ∷ (206, 338)
    ∷ (207, 339)
    ∷ (208, 8211)
    ∷ (209, 8212)
    ∷ (210, 8220)
    ∷ (211, 8221)
    ∷ (212, 8216)
    ∷ (213, 8217)
    ∷ (214, 247)
    ∷ (216, 255)
    ∷ (217, 376)
    ∷ (218, 8260)
    ∷ (219, 164)
    ∷ (220, 8249)
    ∷ (221, 8250)
    ∷ (222, 64257)
    ∷ (223, 64258)
    ∷ (224, 8225)
    ∷ (225, 183)
    ∷ (226, 8218)
    ∷ (227, 8222)
    ∷ (228, 8240)
    ∷ (229, 194)
    ∷ (230, 202)
    ∷ (231, 193)
    ∷ (232, 203)
    ∷ (233, 200)
    ∷ (234, 205)
    ∷ (235, 206)
    ∷ (236, 207)
    ∷ (237, 204)
    ∷ (238, 211)
    ∷ (239, 212)
    ∷ (241, 210)
    ∷ (242, 218)
    ∷ (243, 219)
    ∷ (244, 217)
    ∷ (245, 305)
    ∷ (246, 94)
    ∷ (247, 732)
    ∷ (248, 175)
    ∷ (249, 728)
    ∷ (250, 729)
    ∷ (251, 730)
    ∷ (252, 184)
    ∷ (253, 733)
    ∷ (254, 731)
    ∷ (255, 711)
    ∷ []

unfoldable pub macroman_to_char : ℕ → Option ℕ
unfolding find_arm macroman_arms
macroman_to_char macroman =
    if leb macroman 127 then some macroman else find_arm macroman_arms macroman
