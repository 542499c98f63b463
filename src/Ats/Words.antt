-- ===== src/Ats/Words.antt =====
-- The tables of words of src/modules/ats/ats.service.ts.
use prismacv_backend.Shared.{String, List, [], ◌∷◌}

-- STOP_WORDS
abbrev pub stop_words : List String
stop_words =
    "a" ∷ "an" ∷ "the" ∷ "and" ∷ "or" ∷ "but" ∷ "in" ∷ "on" ∷ "at" ∷ "to" ∷ "for" ∷ "of" ∷ "with"
    ∷ "by" ∷ "from" ∷ "is" ∷ "are" ∷ "was" ∷ "were" ∷ "be" ∷ "been" ∷ "being" ∷ "have" ∷ "has"
    ∷ "had" ∷ "do" ∷ "does" ∷ "did" ∷ "will" ∷ "would" ∷ "could" ∷ "should" ∷ "may" ∷ "might"
    ∷ "shall" ∷ "can" ∷ "need" ∷ "dare" ∷ "ought" ∷ "used" ∷ "this" ∷ "that" ∷ "these" ∷ "those"
    ∷ "i" ∷ "me" ∷ "my" ∷ "myself" ∷ "we" ∷ "our" ∷ "ours" ∷ "ourselves" ∷ "you" ∷ "your" ∷ "yours"
    ∷ "yourself" ∷ "yourselves" ∷ "he" ∷ "him" ∷ "his" ∷ "himself" ∷ "she" ∷ "her" ∷ "hers"
    ∷ "herself" ∷ "it" ∷ "its" ∷ "itself" ∷ "they" ∷ "them" ∷ "their" ∷ "theirs" ∷ "themselves"
    ∷ "what" ∷ "which" ∷ "who" ∷ "whom" ∷ "when" ∷ "where" ∷ "why" ∷ "how" ∷ "all" ∷ "each"
    ∷ "every" ∷ "both" ∷ "few" ∷ "more" ∷ "most" ∷ "other" ∷ "some" ∷ "such" ∷ "no" ∷ "nor" ∷ "not"
    ∷ "only" ∷ "own" ∷ "same" ∷ "so" ∷ "than" ∷ "too" ∷ "very" ∷ "just" ∷ "because" ∷ "as" ∷ "until"
    ∷ "while" ∷ "about" ∷ "between" ∷ "through" ∷ "during" ∷ "before" ∷ "after" ∷ "above" ∷ "below"
    ∷ "up" ∷ "down" ∷ "out" ∷ "off" ∷ "over" ∷ "under" ∷ "again" ∷ "further" ∷ "then" ∷ "once"
    ∷ "here" ∷ "there" ∷ "any" ∷ "if" ∷ "also" ∷ "etc" ∷ "per" ∷ "able" ∷ "must" ∷ "well"
    ∷ "including" ∷ "within" ∷ "using" ∷ "work" ∷ "working" ∷ "experience" ∷ "years" ∷ "year"
    ∷ "team" ∷ "role" ∷ "job" ∷ "company" ∷ "requirements" ∷ "required" ∷ "preferred"
    ∷ "responsibilities" ∷ "looking" ∷ "join" ∷ "strong" ∷ "knowledge" ∷ "understanding" ∷ "minimum"
    ∷ "plus" ∷ "ideal" ∷ "candidate" ∷ "position" ∷ "opportunity" ∷ "based" ∷ []

-- TECHNICAL_TERMS, in the order of insertion
abbrev pub technical_terms : List String
technical_terms =
    "javascript" ∷ "typescript" ∷ "python" ∷ "java" ∷ "c#" ∷ "c++" ∷ "ruby" ∷ "go" ∷ "rust"
    ∷ "swift" ∷ "kotlin" ∷ "php" ∷ "scala" ∷ "r" ∷ "matlab" ∷ "perl" ∷ "react" ∷ "angular" ∷ "vue"
    ∷ "svelte" ∷ "nextjs" ∷ "next.js" ∷ "nuxt" ∷ "node.js" ∷ "nodejs" ∷ "express" ∷ "nestjs"
    ∷ "django" ∷ "flask" ∷ "fastapi" ∷ "spring" ∷ "spring boot" ∷ ".net" ∷ "rails" ∷ "laravel"
    ∷ "aws" ∷ "azure" ∷ "gcp" ∷ "docker" ∷ "kubernetes" ∷ "k8s" ∷ "terraform" ∷ "jenkins"
    ∷ "github actions" ∷ "ci/cd" ∷ "cicd" ∷ "postgresql" ∷ "mysql" ∷ "mongodb" ∷ "redis"
    ∷ "elasticsearch" ∷ "kafka" ∷ "rabbitmq" ∷ "graphql" ∷ "rest" ∷ "restful" ∷ "grpc"
    ∷ "microservices" ∷ "sql" ∷ "nosql" ∷ "dynamodb" ∷ "cassandra" ∷ "oracle" ∷ "html" ∷ "css"
    ∷ "sass" ∷ "scss" ∷ "tailwind" ∷ "bootstrap" ∷ "webpack" ∷ "vite" ∷ "babel" ∷ "eslint"
    ∷ "prettier" ∷ "git" ∷ "jira" ∷ "confluence" ∷ "figma" ∷ "sketch" ∷ "agile" ∷ "scrum" ∷ "kanban"
    ∷ "devops" ∷ "sre" ∷ "machine learning" ∷ "ml" ∷ "ai" ∷ "deep learning" ∷ "nlp" ∷ "tensorflow"
    ∷ "pytorch" ∷ "pandas" ∷ "numpy" ∷ "scikit-learn" ∷ "linux" ∷ "unix" ∷ "windows" ∷ "macos"
    ∷ "oauth" ∷ "jwt" ∷ "saml" ∷ "sso" ∷ "ldap" ∷ "pmp" ∷ "aws certified" ∷ "azure certified"
    ∷ "cka" ∷ "ckad" ∷ "cissp" ∷ "data structures" ∷ "algorithms" ∷ "oop" ∷ "solid"
    ∷ "design patterns" ∷ "tdd" ∷ "bdd" ∷ "unit testing" ∷ "integration testing" ∷ "e2e" ∷ "jest"
    ∷ "mocha" ∷ "cypress" ∷ "playwright" ∷ "selenium" ∷ "prisma" ∷ "typeorm" ∷ "sequelize"
    ∷ "hibernate" ∷ "storybook" ∷ "responsive design" ∷ "accessibility" ∷ "a11y" ∷ "api" ∷ "sdk"
    ∷ "cli" ∷ "saas" ∷ "paas" ∷ "iaas" ∷ []

-- IMPACT_WORDS
abbrev pub impact_words : List String
impact_words =
    "achieved" ∷ "improved" ∷ "increased" ∷ "reduced" ∷ "led" ∷ "managed" ∷ "delivered" ∷ "built"
    ∷ "created" ∷ "designed" ∷ "implemented" ∷ "developed" ∷ "launched" ∷ "optimized"
    ∷ "streamlined" ∷ "automated" ∷ "mentored" ∷ "spearheaded" ∷ "orchestrated" ∷ "transformed"
    ∷ "scaled" ∷ "drove" ∷ "generated" ∷ "saved" ∷ "accelerated" ∷ "pioneered" ∷ "established" ∷ []

-- IMPORTANCE_INDICATORS.required
abbrev pub required_indicators : List String
required_indicators =
    "must have" ∷ "required" ∷ "essential" ∷ "mandatory" ∷ "must be" ∷ "need to have" ∷ []

-- IMPORTANCE_INDICATORS.preferred
abbrev pub preferred_indicators : List String
preferred_indicators =
    "preferred" ∷ "nice to have" ∷ "ideally" ∷ "strongly preferred" ∷ "highly desired" ∷ []

-- IMPORTANCE_INDICATORS.bonus
abbrev pub bonus_indicators : List String
bonus_indicators = "bonus" ∷ "plus" ∷ "advantage" ∷ "asset" ∷ "beneficial" ∷ "would be great" ∷ []
